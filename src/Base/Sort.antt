-- ===== src/Base/Sort.antt =====
-- `order by`: a stable insertion sort, and what it keeps.
use logicore_wms.Base.Tests.{if◌then◌else◌, Bool-cases}
use logicore_wms.Base.Lists.{All, All-imp, All-kept, Ordered, keep, sum_by}
use Prim.Native.Nat.{ℕ, ◌+◌}
use mathlib.Core.Path.{◌≡◌, refl, sym, ap, ◌∙◌}
use mathlib.Core.Logic.{inl, inr}
use mathlib.Core.Bool.{Bool, true, false}
use mathlib.Core.List.{List, [], ◌∷◌}
use native.Mathlib.Omega.{arith}

module _ {A : Type 0} (le : A → A → Bool) where
  unfoldable pub insert_by : A → List A → List A
  insert_by x [] = x ∷ []
  insert_by x (y ∷ l) = if le x y then x ∷ y ∷ l else y ∷ insert_by x l

  unfoldable pub sort_by : List A → List A
  unfolding insert_by
  sort_by [] = []
  sort_by (x ∷ l) = insert_by x (sort_by l)

  -- No row comes before an earlier one.
  abbrev pub IsSorted : List A → Type 0
  IsSorted [] = Unit
  IsSorted (x ∷ l) = All (λ y. le x y ≡ true) l × IsSorted l

  pub IsSorted-Ordered :
      (R : A → A → Type 0)
      → ((x y : A) → le x y ≡ true → R x y)
      → (l : List A) → IsSorted l
      → Ordered R l
  IsSorted-Ordered R f [] o = tt
  IsSorted-Ordered R f (x ∷ l) (a, o) = (All-imp (f x) l a, IsSorted-Ordered R f l o)

  All-insert : (P : A → Type 0) (x : A) (l : List A) → P x → All P l → All P (insert_by x l)
  unfolding insert_by
  All-insert P x [] p a = (p, tt)
  All-insert P x (y ∷ l) p (q, a) = go (le x y) (All-insert P x l p a)
    where
      go :
          (b : Bool)
          → All P (insert_by x l)
          → All P (if◌then◌else◌ b (x ∷ y ∷ l) (y ∷ insert_by x l))
      go true r = (p, (q, a))
      go false r = (q, r)

  -- What holds of all rows holds of them in any order.
  pub All-sort : (P : A → Type 0) (l : List A) → All P l → All P (sort_by l)
  unfolding sort_by
  All-sort P [] a = tt
  All-sort P (x ∷ l) (p, a) = All-insert P x (sort_by l) p (All-sort P l a)

  pub sum_by-insert : (g : A → ℕ) (x : A) (l : List A) → sum_by g (insert_by x l) ≡ g x + sum_by g l
  unfolding insert_by
  sum_by-insert g x [] = omega arith
  sum_by-insert g x (y ∷ l) = ground (arith, sum_by-insert g x l)

  -- Sorting keeps every row as often as it is there: every sum is what it was.
  pub sum_by-sort : (g : A → ℕ) (l : List A) → sum_by g (sort_by l) ≡ sum_by g l
  unfolding sort_by
  sum_by-sort g [] = refl
  sum_by-sort g (x ∷ l) = omega (arith, sum_by-insert g x (sort_by l), sum_by-sort g l)

  module _ (connected : (x y : A) → le x y ≡ false → le y x ≡ true)
      (trans : (x y z : A) → le x y ≡ true → le y z ≡ true → le x z ≡ true) where
    later :
        (x y : A) (l : List A)
        → le x y ≡ true
        → All (λ z. le y z ≡ true) l
        → All (λ z. le x z ≡ true) l
    later x y [] h a = tt
    later x y (z ∷ l) h (q, a) = (trans x y z h q, later x y l h a)

    insert-IsSorted : (x : A) (l : List A) → IsSorted l → IsSorted (insert_by x l)
    unfolding insert_by
    insert-IsSorted x [] o = (tt, tt)
    insert-IsSorted x (y ∷ l) (a, o) = go (le x y) refl (insert-IsSorted x l o)
      where
        go :
            (b : Bool)
            → le x y ≡ b
            → IsSorted (insert_by x l)
            → IsSorted (if◌then◌else◌ b (x ∷ y ∷ l) (y ∷ insert_by x l))
        go true h r = ((h, later x y l h a), (a, o))
        go false h r = (All-insert (λ z. le y z ≡ true) x l (connected x y h) a, r)

    pub sort-IsSorted : (l : List A) → IsSorted (sort_by l)
    unfolding sort_by
    sort-IsSorted [] = tt
    sort-IsSorted (x ∷ l) = insert-IsSorted x (sort_by l) (sort-IsSorted l)

    insert-front : (x : A) (l : List A) → All (λ z. le x z ≡ true) l → insert_by x l ≡ x ∷ l
    unfolding insert_by
    insert-front x [] h = refl
    insert-front x (y ∷ l) (h, hs) = rw h refl

    module _ (p : A → Bool) where
      keep-insert :
          (x : A) (l : List A)
          → IsSorted l
          → keep p (insert_by x l) ≡ (if p x then insert_by x (keep p l) else keep p l)
      unfolding insert_by
      keep-insert x [] o = refl
      keep-insert x (y ∷ l) (a, o) = elim (Bool-cases (le x y)) [
        | inl first ↦
            let front =
              insert-front x (keep p (y ∷ l))
                (All-kept (λ z. le x z ≡ true) p (y ∷ l) (first, later x y l first a)) in
            rw first (ap (λ m. if p x then m else keep p (y ∷ l)) (sym front))
        | inr after ↦
            let ih = keep-insert x l o in
            elim (Bool-cases (p x)) [
              | inl px ↦ elim (Bool-cases (p y)) [
                | inl py ↦ rw (after, px, py, after) (ap (◌∷◌ y) (rw px at ih))
                | inr py ↦ rw (after, px, py) (rw px at ih)
              ]
              | inr px ↦ rw (after, px) (ap (λ m. if p y then y ∷ m else m) (rw px at ih))
            ]
      ]

      -- Sorting and selecting come to the same in either order.
      pub keep-sort : (l : List A) → keep p (sort_by l) ≡ sort_by (keep p l)
      unfolding sort_by
      keep-sort [] = refl
      keep-sort (x ∷ l) = elim (Bool-cases (p x)) [
        | inl px ↦
            keep-insert x (sort_by l) (sort-IsSorted l) ∙ rw px (ap (insert_by x) (keep-sort l))
        | inr px ↦ keep-insert x (sort_by l) (sort-IsSorted l) ∙ rw px (keep-sort l)
      ]
