-- ===== src/Inventory/Effects/Rows.antt =====
-- The effect of a change, from what it did to the rows.
use logicore_wms.Base.{
  ℕ, false, none, some, List, [], ◌∷◌, ◌++◌, ◌+◌, ◌-◌, ◌≡◌, refl, sym, ◌∙◌, subst, arith, ◌==◌,
  if◌then◌else◌, Bool-cases, inl, inr, ==_iff, sum_by-append, ◌≤◌, All,
}
use logicore_wms.Base.Int.{pos_part}
use logicore_wms.Base.Rows.{Updated, find_row, find_row-snoc}
use logicore_wms.Platform.Types.{Context}
use logicore_wms.Inventory.Stock.{Stock}
use logicore_wms.Inventory.Tables.{stock_key}
use logicore_wms.Inventory.Changes.{Change, move, write_off, moved_lot}
use logicore_wms.Inventory.Effects.{units_in, units, added, Effect}

-- Sums of the lots after the row of `x` has become `y`.
pub resized :
    (x y : Stock) {rows rows' : List Stock}
    → Updated stock_key x.id rows rows' x y
    → y.product_id ≡ x.product_id
    → (p : ℕ)
    → units p rows' + (if x.product_id == p then x.quantity else 0)
      ≡ units p rows + (if x.product_id == p then y.quantity else 0)
resized x y u e p = ground (arith, u.sums (units_in p), e)

pub self_found :
    (x y : Stock) {rows rows' : List Stock}
    → Updated stock_key x.id rows rows' x y
    → find_row stock_key x.id rows' ≡ some y
self_found x y u = ground (arith, u.finds x.id)

pub other_found :
    (x y : Stock) {rows rows' : List Stock}
    → Updated stock_key x.id rows rows' x y
    → (j : ℕ) {z : Stock} → (x.id == j) ≡ false
    → find_row stock_key j rows ≡ some z
    → find_row stock_key j rows' ≡ some z
other_found x y u j n e = ground (arith, u.finds j, n, e)

-- A row is found after one with a new key was added.
pub found_before :
    (z : Stock) (rows : List Stock) (j : ℕ) {y : Stock}
    → find_row stock_key z.id rows ≡ none
    → find_row stock_key j rows ≡ some y
    → find_row stock_key j (rows ++ (z ∷ [])) ≡ some y
found_before z rows j new found = elim (Bool-cases (z.id == j)) [
  | inl same ↦
      absurd
        (no_row (subst (λ i. find_row stock_key i rows ≡ none) ((==_iff z.id j).0 same) new) found)
  | inr other ↦ find_row-snoc stock_key j rows z new ∙ rw other found
]
  where
    no_row : {y : Stock} → find_row stock_key j rows ≡ none → find_row stock_key j rows ≡ some y → ⊥
    no_row e f = cc

module _ (c : Context) (q : Change) (x : Stock) {rows rows' : List Stock} where
  pub written-Effect :
      pos_part q.quantity ≤ x.quantity
      → Updated stock_key x.id rows rows' x
          (record x { quantity = x.quantity - pos_part q.quantity })
      → Effect c write_off q x rows rows'
  written-Effect fits u = record {
    units = λ p. ground (arith, resized x _ u refl p, fits);
    left = self_found x _ u;
    others = λ j n found. other_found x _ u j n found;
    arrives = tt;
  }

  pub moved-Effect :
      (to : ℕ)
      → c.cast q.to_location_id ≡ some to
      → find_row stock_key c.new_id rows ≡ none
      → find_row stock_key x.id rows ≡ some x
      → pos_part q.quantity ≤ x.quantity
      → Updated stock_key x.id
          (rows ++ (record (moved_lot c x to (pos_part q.quantity)) { created_at = c.db_now } ∷ []))
          rows'
          x
          (record x { quantity = x.quantity - pos_part q.quantity })
      → Effect c move q x rows rows'
  moved-Effect to e new found fits u =
      let z : Stock = record (moved_lot c x to (pos_part q.quantity)) { created_at = c.db_now } in
      record {
        units = λ p.
            ground (arith, resized x _ u refl p, sum_by-append (units_in p) rows (z ∷ []), fits);
        left = self_found x _ u;
        others = λ j n old. other_found x _ u j n (found_before z rows j new old);
        arrives =
            subst
              (λ o.
                All (λ z. find_row stock_key z.id rows' ≡ some z)
                  (added c move (pos_part q.quantity) x o))
              (sym e)
              (
                other_found x _ u z.id (differs new found)
                    (find_row-snoc stock_key z.id rows z new ∙ ground arith),
                tt,
              );
      }
    where
      differs :
          find_row stock_key c.new_id rows ≡ none
          → find_row stock_key x.id rows ≡ some x
          → (x.id == c.new_id) ≡ false
      differs new found = ground (arith, new, found)
