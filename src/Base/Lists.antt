-- ===== src/Base/Lists.antt =====
-- Lists measured by native numbers, and predicates on all or some of their entries.
use Prim.Native.Nat.{ℕ, zero, suc, ◌+◌, ◌≤◌}
use mathlib.Core.Path.{◌≡◌, refl, ap}
use mathlib.Core.Bool.{Bool, true, false, ◌||◌}
use mathlib.Core.List.{List, [], ◌∷◌, ◌++◌, map}
use mathlib.Core.Option.{Option, none, some}
use native.Mathlib.Omega.{arith}
use logicore_wms.Base.Tests.{if◌then◌else◌}

module _ {ℓ} {A : Type ℓ} where
  abbrev pub length : List A → ℕ
  length [] = 0
  length (x ∷ xs) = suc (length xs)

  abbrev pub take : ℕ → List A → List A
  take zero xs = []
  take (suc n) [] = []
  take (suc n) (x ∷ xs) = x ∷ take n xs

  abbrev pub drop : ℕ → List A → List A
  drop zero xs = xs
  drop (suc n) [] = []
  drop (suc n) (x ∷ xs) = drop n xs

  -- The entries that pass a test, in order.
  abbrev pub keep : (A → Bool) → List A → List A
  keep p [] = []
  keep p (x ∷ xs) = let rest = keep p xs in if p x then x ∷ rest else rest

  abbrev pub any : (A → Bool) → List A → Bool
  any p [] = false
  any p (x ∷ xs) = p x || any p xs

  abbrev pub find? : (A → Bool) → List A → Option A
  find? p [] = none
  find? p (x ∷ xs) = if p x then some x else find? p xs

  abbrev pub sum_by : (A → ℕ) → List A → ℕ
  sum_by f [] = 0
  sum_by f (x ∷ xs) = f x + sum_by f xs

  pub length-append : (xs ys : List A) → length (xs ++ ys) ≡ length xs + length ys
  length-append [] ys = omega arith
  length-append (x ∷ xs) ys = omega (arith, length-append xs ys)

  pub sum_by-append : (f : A → ℕ) (xs ys : List A) → sum_by f (xs ++ ys) ≡ sum_by f xs + sum_by f ys
  sum_by-append f [] ys = omega arith
  sum_by-append f (x ∷ xs) ys = omega (arith, sum_by-append f xs ys)

abbrev pub All {ℓ κ} : {A : Type ℓ} → (A → Type κ) → List A → Type κ
All P [] = Unit
All P (x ∷ xs) = P x × All P xs

pub All-imp {ℓ κ μ} :
    {A : Type ℓ} {P : A → Type κ} {Q : A → Type μ}
    → ((x : A) → P x → Q x)
    → (l : List A) → All P l
    → All Q l
All-imp f [] h = tt
All-imp f (x ∷ l) (p, h) = (f x p, All-imp f l h)

pub All-both {ℓ κ μ} :
    {A : Type ℓ} (P : A → Type κ) (Q : A → Type μ) (l : List A)
    → All P l
    → All Q l
    → All (λ x. P x × Q x) l
All-both P Q [] h k = tt
All-both P Q (x ∷ l) (p, h) (q, k) = ((p, q), All-both P Q l h k)

pub map-append :
    {A B : Type 0} (f : A → B) (xs ys : List A) → map f (xs ++ ys) ≡ map f xs ++ map f ys
map-append f [] ys = refl
map-append f (x ∷ xs) ys = ap (◌∷◌ (f x)) (map-append f xs ys)

pub All-map {ℓ κ} :
    {A B : Type ℓ} (P : B → Type κ) (f : A → B) (l : List A)
    → All (λ x. P (f x)) l
    → All P (map f l)
All-map P f [] h = tt
All-map P f (x ∷ l) (p, h) = (p, All-map P f l h)

pub sum_by-same :
    {A : Type 0} {f g : A → ℕ} (l : List A) → ((x : A) → f x ≡ g x) → sum_by f l ≡ sum_by g l
sum_by-same [] h = refl
sum_by-same (x ∷ l) h = omega (arith, h x, sum_by-same l h)

-- Each entry is related to all that come after it.
abbrev pub Ordered : {A : Type 0} → (A → A → Type 0) → List A → Type 0
Ordered R [] = Unit
Ordered R (x ∷ l) = All (R x) l × Ordered R l

-- What is counted of the entries that pass a test alone.
pub sum_by-keep :
    {A : Type 0} (p : A → Bool) (g : A → ℕ) (l : List A)
    → ((x : A) → p x ≡ false → g x ≡ 0)
    → sum_by g (keep p l) ≡ sum_by g l
sum_by-keep p g [] h = refl
sum_by-keep p g (x ∷ l) h = go (p x) refl (sum_by-keep p g l h)
  where
    go :
        (b : Bool)
        → p x ≡ b
        → sum_by g (keep p l) ≡ sum_by g l
        → sum_by g (if b then x ∷ keep p l else keep p l) ≡ g x + sum_by g l
    go true e r = omega (arith, r)
    go false e r = omega (arith, r, h x e)

pub All-append {ℓ κ} :
    {A : Type ℓ} (P : A → Type κ) (xs ys : List A) → All P xs → All P ys → All P (xs ++ ys)
All-append P [] ys hx hy = hy
All-append P (x ∷ xs) ys hx hy = (hx.0, All-append P xs ys hx.1 hy)

pub All-replace {ℓ κ} :
    {A : Type ℓ} (P : A → Type κ) (front : List A) (x y : A) (back : List A)
    → P y
    → All P (front ++ (x ∷ back))
    → All P (front ++ (y ∷ back))
All-replace P [] x y back p (q, h) = (p, h)
All-replace P (z ∷ front) x y back p (q, h) = (q, All-replace P front x y back p h)

-- The entries that pass a test do.
pub All-keep {ℓ} : {A : Type ℓ} (p : A → Bool) (l : List A) → All (λ x. p x ≡ true) (keep p l)
All-keep p [] = tt
All-keep p (x ∷ l) = go (p x) refl (All-keep p l)
  where
    go :
        (b : Bool)
        → p x ≡ b
        → All (λ x. p x ≡ true) (keep p l)
        → All (λ x. p x ≡ true) (if b then x ∷ keep p l else keep p l)
    go true e a = (e, a)
    go false e a = a

pub All-kept {ℓ κ} :
    {A : Type ℓ} (P : A → Type κ) (p : A → Bool) (l : List A) → All P l → All P (keep p l)
All-kept P p [] a = tt
All-kept P p (x ∷ l) (q, a) = go (p x) (All-kept P p l a)
  where
    go : (b : Bool) → All P (keep p l) → All P (if b then x ∷ keep p l else keep p l)
    go true r = (q, r)
    go false r = r

pub All-take {ℓ κ} : {A : Type ℓ} (P : A → Type κ) (n : ℕ) (l : List A) → All P l → All P (take n l)
All-take P zero l a = tt
All-take P (suc n) [] a = tt
All-take P (suc n) (x ∷ l) (p, a) = (p, All-take P n l a)

module _ {ℓ} {A : Type ℓ} where
  pub length-take-le : (n : ℕ) (l : List A) → length (take n l) ≤ n
  length-take-le zero l = omega arith
  length-take-le (suc n) [] = omega arith
  length-take-le (suc n) (x ∷ l) = omega (arith, length-take-le n l)

  -- A list that is no longer than the limit is taken whole.
  pub take_all : (n : ℕ) (l : List A) → length l ≤ n → take n l ≡ l
  take_all zero [] h = refl
  take_all zero (x ∷ l) h = absurd (omega (arith, h))
  take_all (suc n) [] h = refl
  take_all (suc n) (x ∷ l) h = ap (◌∷◌ x) (take_all n l (omega (arith, h)))

  pub take-drop : (n : ℕ) (l : List A) → take n l ++ drop n l ≡ l
  take-drop zero l = refl
  take-drop (suc n) [] = refl
  take-drop (suc n) (x ∷ l) = ap (◌∷◌ x) (take-drop n l)

  pub length-sum : (l : List A) → length l ≡ sum_by (λ _. 1) l
  length-sum [] = refl
  length-sum (x ∷ l) = omega (arith, length-sum l)
