-- ===== src/Inventory/Invariant/Ledgers.antt =====
-- How a ledger stays balanced when its location is charged for a change of a lot.
use logicore_wms.Base.{
  ℕ, none, some, List, [], ◌∷◌, ◌++◌, ◌+◌, ◌*◌, ◌≡◌, ap, ◌==◌, arith, sum_by-append, if◌then◌else◌,
}
use logicore_wms.Base.Int.{ℤ, pos, pos_part, neg_part}
use logicore_wms.Base.Rows.{Updated}
use logicore_wms.Inventory.Stock.{Stock}
use logicore_wms.Inventory.Tables.{stock_key}
use logicore_wms.Inventory.Capacity.{shift}
use logicore_wms.Inventory.Invariant.{load_of, load, IsBalanced}

-- `ledger'` is `ledger` with `delta` units charged to location `l`.
abbrev pub IsCharged : ℕ → ℤ → ℕ → (ℕ → ℕ) → (ℕ → ℕ) → Type 0
IsCharged l delta unit ledger ledger' =
    (j : ℕ) → ledger' j ≡ (if l == j then pos_part (shift (ledger l) delta unit) else ledger j)

times : (a b c d u : ℕ) → a + b ≡ c + d → a * u + b * u ≡ c * u + d * u
times a b c d u h = omega (arith, ap (λ (n : ℕ). n * u) h)

module _ (unit : Stock → ℕ) (ledger ledger' : ℕ → ℕ) {k : ℕ} {stocks stocks' : List Stock}
    {x y : Stock} (u : Updated stock_key k stocks stocks' x y) (same : unit y ≡ unit x)
    (balanced : IsBalanced ledger unit stocks) where
  -- A lot at `l` gains or loses `delta` units, for which `l` is charged.
  pub IsBalanced-resize :
      (l : ℕ) (delta : ℤ)
      → x.location_id ≡ some l
      → y.location_id ≡ some l
      → y.quantity + neg_part delta ≡ x.quantity + pos_part delta
      → IsCharged l delta (unit x) ledger ledger'
      → IsBalanced ledger' unit stocks'
  IsBalanced-resize l delta ex ey q charged j = grind (
    arith,
    charged j,
    balanced j,
    u.sums (load_of unit j),
    times y.quantity (neg_part delta) x.quantity (pos_part delta) (unit x) q,
    same,
  )

  -- A lot that has no location gets one, which is charged for all of it.
  pub IsBalanced-place :
      (l : ℕ)
      → x.location_id ≡ none
      → y.location_id ≡ some l
      → y.quantity ≡ x.quantity
      → IsCharged l (pos x.quantity) (unit x) ledger ledger'
      → IsBalanced ledger' unit stocks'
  IsBalanced-place l ex ey q charged j =
      grind
        (arith, charged j, balanced j, u.sums (load_of unit j), ap (λ (n : ℕ). n * unit x) q, same)

  -- A change that leaves the load of the lot alone, and no location charged.
  pub IsBalanced-idle :
      ((j : ℕ) → load_of unit j y ≡ load_of unit j x)
      → ((j : ℕ) → ledger' j ≡ ledger j)
      → IsBalanced ledger' unit stocks'
  IsBalanced-idle idle stay j = omega (arith, idle j, stay j, balanced j, u.sums (load_of unit j))

module _ (unit : Stock → ℕ) (ledger ledger' : ℕ → ℕ) (stocks : List Stock) (z : Stock)
    (balanced : IsBalanced ledger unit stocks) where
  load-snoc : (j : ℕ) → load unit j (stocks ++ (z ∷ [])) ≡ load unit j stocks + load_of unit j z
  load-snoc j = omega (arith, sum_by-append (load_of unit j) stocks (z ∷ []))

  -- A new lot at `l`, which is charged for it.
  pub IsBalanced-add :
      (l : ℕ)
      → z.location_id ≡ some l
      → IsCharged l (pos z.quantity) (unit z) ledger ledger'
      → IsBalanced ledger' unit (stocks ++ (z ∷ []))
  IsBalanced-add l ez charged j = grind (arith, charged j, balanced j, load-snoc j)

  -- A new lot that has no location.
  pub IsBalanced-add_unplaced :
      z.location_id ≡ none
      → ((j : ℕ) → ledger' j ≡ ledger j)
      → IsBalanced ledger' unit (stocks ++ (z ∷ []))
  IsBalanced-add_unplaced ez stay j = ground (arith, stay j, balanced j, load-snoc j)
