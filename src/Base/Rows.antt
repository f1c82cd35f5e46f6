-- ===== src/Base/Rows.antt =====
-- The rows of a table with a numeric primary key: `select … where key = k`, `update … where key = k`
-- with a check on the new row, and the sums over a table.
use logicore_wms.Base.Tests.{◌==◌, if◌then◌else◌, Bool-cases, ==_iff, is_some}
use logicore_wms.Base.Lists.{All, All-replace, sum_by}
use Prim.Native.Nat.{ℕ, ◌+◌}
use mathlib.Core.Path.{◌≡◌, refl, ap, subst, subst₃}
use mathlib.Core.Logic.{inl, inr}
use mathlib.Core.Bool.{true, false}
use mathlib.Core.List.{List, [], ◌∷◌, ◌++◌, map}
use mathlib.Core.Option.{Option, none, some}
use native.Mathlib.Omega.{arith}

abbrev pub cons_to : {A : Type 0} → A → Option (List A) → Option (List A)
cons_to x none = none
cons_to x (some l) = some (x ∷ l)

abbrev pub head_to : {A : Type 0} → Option A → List A → Option (List A)
head_to none l = none
head_to (some y) l = some (y ∷ l)

pub some_inj : {A : Type 0} {a b : A} → some a ≡ some b → a ≡ b
some_inj h = cc

abbrev pub IsDistinct : List ℕ → Type 0
IsDistinct [] = Unit
IsDistinct (k ∷ ks) = All (λ j. (k == j) ≡ false) ks × IsDistinct ks

module _ {A : Type 0} (key : A → ℕ) where
  unfoldable pub find_row : ℕ → List A → Option A
  find_row k [] = none
  find_row k (x ∷ l) = if key x == k then some x else find_row k l

  -- `none` if the check refuses the new row.
  unfoldable pub update_row : ℕ → (A → Option A) → List A → Option (List A)
  update_row k f [] = some []
  update_row k f (x ∷ l) = if key x == k then head_to (f x) l else cons_to x (update_row k f l)

  -- Row `x` of `l`, which has key `k`, has become `y` in `l'`.
  pub record Updated (k : ℕ) (l l' : List A) (x y : A) : Type 0 where
    pub found : find_row k l ≡ some x
    pub finds : (j : ℕ) → find_row j l' ≡ (if k == j then some y else find_row j l)
    pub sums : (g : A → ℕ) → sum_by g l' + g x ≡ sum_by g l + g y
    pub front : List A
    pub back : List A
    pub before : l ≡ front ++ (x ∷ back)
    pub after : l' ≡ front ++ (y ∷ back)

  Updated-head : (x y : A) (l : List A) → key y ≡ key x → Updated (key x) (x ∷ l) (y ∷ l) x y
  unfolding find_row
  Updated-head x y l e = record {
    found = ground arith;
    finds = λ j. ground arith;
    sums = λ g. omega arith;
    front = [];
    back = l;
    before = refl;
    after = refl;
  }

  Updated-tail :
      (k : ℕ) (z : A) (l l' : List A) (x y : A)
      → (key z == k) ≡ false
      → Updated k l l' x y
      → Updated k (z ∷ l) (z ∷ l') x y
  unfolding find_row
  Updated-tail k z l l' x y n u = record {
    found = rw n u.found;
    finds = λ j. ground (arith, u.finds j);
    sums = λ g. omega (arith, u.sums g);
    front = z ∷ u.front;
    back = u.back;
    before = ap (◌∷◌ z) u.before;
    after = ap (◌∷◌ z) u.after;
  }

  updated_here :
      (k : ℕ) (f : A → Option A) (z : A) (l : List A) {x : A} {l' : List A} (o : Option A)
      → ((y : A) → f x ≡ some y → key y ≡ key x)
      → (key z == k) ≡ true
      → z ≡ x
      → f z ≡ o
      → head_to o l ≡ some l'
      → (y : A) × (f x ≡ some y) × Updated k (z ∷ l) l' x y
  updated_here k f z l none keeps here e q h = cc
  updated_here k f z l {x} {l'} (some y) keeps here e q h = (
    y,
    rw (← e) q,
    subst₃ (λ j m v. Updated j (z ∷ l) m v y) ((==_iff (key z) k).0 here) (some_inj h) e
        (Updated-head z y l (rw e (keeps y (rw (← e) q)))),
  )

  updated_there :
      (k : ℕ) (f : A → Option A) (z : A) (l : List A) {x : A} {l' : List A} (o : Option (List A))
      → (key z == k) ≡ false
      → update_row k f l ≡ o
      → ((m : List A) → update_row k f l ≡ some m → (y : A) × (f x ≡ some y) × Updated k l m x y)
      → cons_to z o ≡ some l'
      → (y : A) × (f x ≡ some y) × Updated k (z ∷ l) l' x y
  updated_there k f z l none there q ih h = cc
  updated_there k f z l {x} {l'} (some m) there q ih h =
      let (y, e, u) = ih m q in
      (y, e, subst (λ n. Updated k (z ∷ l) n x y) (some_inj h) (Updated-tail k z l m x y there u))

  -- An update of a row that is there puts the checked row in its place, and changes no other.
  pub update_row-Updated :
      (k : ℕ) (f : A → Option A) (l : List A) {x : A} {l' : List A}
      → ((y : A) → f x ≡ some y → key y ≡ key x)
      → find_row k l ≡ some x
      → update_row k f l ≡ some l'
      → (y : A) × (f x ≡ some y) × Updated k l l' x y
  unfolding find_row update_row
  update_row-Updated k f [] keeps e h = cc
  update_row-Updated k f (z ∷ l) {x} {l'} keeps e h = elim (Bool-cases (key z == k)) [
    | inl here ↦
        updated_here k f z l (f z) keeps here (some_inj (rw (here, find_row) at e)) refl
          (rw (here, update_row) at h)
    | inr there ↦
        updated_there k f z l (update_row k f l) there refl
          (λ m q. update_row-Updated k f l keeps (rw (there, find_row) at e) q)
          (rw (there, update_row) at h)
  ]

  -- An update without a check is carried out.
  pub update_row-some :
      (k : ℕ) (f : A → A) (l : List A)
      → (l' : List A) × (update_row k (λ x. some (f x)) l ≡ some l')
  unfolding update_row
  update_row-some k f [] = ([], refl)
  update_row-some k f (z ∷ l) = elim (Bool-cases (key z == k)) [
    | inl here ↦ (f z ∷ l, rw here refl)
    | inr there ↦ let (m, e) = update_row-some k f l in (z ∷ m, rw (there, e) refl)
  ]

  -- What holds of all rows still does, if it holds of the new one.
  pub All-Updated :
      (P : A → Type 0) {k : ℕ} {l l' : List A} {x y : A}
      → Updated k l l' x y
      → P y
      → All P l
      → All P l'
  All-Updated P {x = x} {y = y} u p h =
      rw u.after (All-replace P u.front x y u.back p (rw u.before at h))

  pub find_row-key : (k : ℕ) (l : List A) {x : A} → find_row k l ≡ some x → key x ≡ k
  unfolding find_row
  find_row-key k [] h = cc
  find_row-key k (z ∷ l) {x} h = ground (arith, find_row-key k l {x = x})

  -- What holds of all rows holds of the one that is found.
  pub All-find_row :
      (P : A → Type 0) (k : ℕ) (l : List A) {x : A} → All P l → find_row k l ≡ some x → P x
  unfolding find_row
  All-find_row P k [] a h = absurd (cc)
  All-find_row P k (z ∷ l) {x} (p, a) h = elim (Bool-cases (key z == k)) [
    | inl here ↦ subst P (some_inj (rw (here, find_row) at h)) p
    | inr there ↦ All-find_row P k l a (rw (there, find_row) at h)
  ]

  -- The rows of a table with a new last row.
  pub find_row-snoc :
      (k : ℕ) (l : List A) (z : A)
      → find_row (key z) l ≡ none
      → find_row k (l ++ (z ∷ [])) ≡ (if key z == k then some z else find_row k l)
  unfolding find_row
  find_row-snoc k [] z h = ground arith
  find_row-snoc k (x ∷ l) z h = ground (arith, find_row-snoc k l z)

  -- An update of a row that is not there changes nothing.
  pub update_row-absent :
      (k : ℕ) (f : A → Option A) (l : List A) → find_row k l ≡ none → update_row k f l ≡ some l
  unfolding find_row update_row
  update_row-absent k f [] h = refl
  update_row-absent k f (z ∷ l) h = ground (arith, update_row-absent k f l)

  -- No two rows have the same key.
  abbrev pub IsKeyed : List A → Type 0
  IsKeyed l = IsDistinct (map key l)

  -- Then every row is found under its key.
  pub rows_found_themselves : (l : List A) → IsKeyed l → All (λ x. find_row (key x) l ≡ some x) l
  unfolding find_row
  rows_found_themselves [] d = tt
  rows_found_themselves (x ∷ l) (new, d) = (ground arith, later l new (rows_found_themselves l d))
    where
      later :
          (m : List A)
          → All (λ j. (key x == j) ≡ false) (map key m)
          → All (λ y. find_row (key y) l ≡ some y) m
          → All (λ y. find_row (key y) (x ∷ l) ≡ some y) m
      later [] n h = tt
      later (y ∷ m) (n, ns) (h, hs) = (rw n h, later m ns hs)

  -- Every row is found under its key, or one before it is.
  pub rows_found : (l : List A) → All (λ x. is_some (find_row (key x) l) ≡ true) l
  unfolding find_row
  rows_found [] = tt
  rows_found (x ∷ l) = (ground arith, later l (rows_found l))
    where
      later :
          (m : List A)
          → All (λ y. is_some (find_row (key y) l) ≡ true) m
          → All (λ y. is_some (find_row (key y) (x ∷ l)) ≡ true) m
      later [] a = tt
      later (y ∷ m) (e, a) = (ground (arith, e), later m a)
