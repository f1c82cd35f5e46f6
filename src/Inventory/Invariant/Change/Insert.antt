-- ===== src/Inventory/Invariant/Change/Insert.antt =====
-- A new lot, at a location that was charged for it or at none.
use logicore_wms.Base.{
  ℕ, true, none, some, List, [], ◌∷◌, ◌++◌, ◌+◌, ◌≡◌, sym, ap, ◌∙◌, subst, subst₂, ◌≤◌, arith,
  is_some, All, All-append,
}
use logicore_wms.Base.Int.{ℤ, pos, pos_part}
use logicore_wms.Base.Rows.{find_row, find_row-snoc}
use logicore_wms.Platform.Types.{ok}
use logicore_wms.Inventory.Stock.{Stock, check_quantity, available}
use logicore_wms.Inventory.Tables.{Tables, stock_key, reservation_key, find_stock}
use logicore_wms.Inventory.Capacity.Ledger.{Charged, weight_at, volume_at}
use logicore_wms.Inventory.Changes.{billion}
use logicore_wms.Inventory.Invariant.{
  Inv, IsWithin, IsBalanced, reserved_at, claims, weight_unit, volume_unit,
}
use logicore_wms.Inventory.Invariant.Ledgers.{IsBalanced-add, IsBalanced-add_unplaced}

-- What is reserved of the lots does not change with a new lot, of which nothing is reserved.
pub reserved_at-snoc :
    (j : ℕ) (l : List Stock) (z : Stock)
    → find_row stock_key z.id l ≡ none
    → z.reserved ≡ 0
    → reserved_at j (l ++ (z ∷ [])) ≡ reserved_at j l
reserved_at-snoc j l z new zero = ground (arith, find_row-snoc stock_key j l z new)

pub find_stock-snoc :
    (k : ℕ) (l : List Stock) (z x : Stock)
    → find_row stock_key z.id l ≡ none
    → find_row stock_key k l ≡ some x
    → find_row stock_key k (l ++ (z ∷ [])) ≡ some x
find_stock-snoc k l z x new e = ground (arith, find_row-snoc stock_key k l z new)

-- The invariant after an insertion, if the ledgers agree.
pub Inv-snoc :
    {t t2 : Tables} (z : Stock)
    → Inv t
    → t2.stocks ≡ t.stocks ++ (z ∷ [])
    → t2.reservations ≡ t.reservations
    → t2.allocations ≡ t.allocations
    → find_stock z.id t ≡ none
    → z.reserved ≡ 0
    → z.quantity ≤ billion
    → IsBalanced (λ l. weight_at l t2) weight_unit (t.stocks ++ (z ∷ []))
    → IsBalanced (λ l. volume_at l t2) volume_unit (t.stocks ++ (z ∷ []))
    → Inv t2
Inv-snoc {t} {t2} z v st re al new zero small bw bv = record {
  backed = λ j.
      subst₂ (λ res al. reserved_at j t2.stocks ≡ claims j res al) (sym re) (sym al)
        (ap (reserved_at j) st ∙ reserved_at-snoc j t.stocks z new zero ∙ v.backed j);
  weights = subst (IsBalanced (λ l. weight_at l t2) weight_unit) (sym st) bw;
  volumes = subst (IsBalanced (λ l. volume_at l t2) volume_unit) (sym st) bv;
  known =
      subst₂
        (λ res al. All (λ a. is_some (find_row reservation_key a.reservation_id res) ≡ true) al)
        (sym re) (sym al) v.known;
  within =
      subst (All IsWithin) (sym st)
        (All-append IsWithin t.stocks (z ∷ []) v.within ((omega arith, small), tt));
}

-- A new lot at a location that was charged for it.
pub Inv-add :
    {l : ℕ} {t t1 t2 : Tables} (x z : Stock)
    → Inv t
    → Charged l (pos z.quantity) x t t1
    → t2 ≡ record t1 { stocks = t1.stocks ++ (z ∷ []) }
    → find_stock z.id t1 ≡ none
    → z.location_id ≡ some l
    → z.weight ≡ x.weight
    → z.volume ≡ x.volume
    → z.reserved ≡ 0
    → z.quantity ≤ billion
    → Inv t2
Inv-add {l} {t} {t1} {t2} x z v ch e new ez ew ev zero small =
    Inv-snoc z v (ap (λ (t : Tables). t.stocks) e ∙ ap (λ s. s ++ (z ∷ [])) ch.stocks)
      (ap (λ (t : Tables). t.reservations) e ∙ ch.reservations)
      (ap (λ (t : Tables). t.allocations) e ∙ ch.allocations)
      (subst (λ s. find_row stock_key z.id s ≡ none) ch.stocks new) zero small
      (IsBalanced-add weight_unit (λ j. weight_at j t) (λ j. weight_at j t2) t.stocks z v.weights l
        ez (λ j. ap (λ (t : Tables). weight_at j t) e ∙ rw ew (ch.weights j)))
      (IsBalanced-add volume_unit (λ j. volume_at j t) (λ j. volume_at j t2) t.stocks z v.volumes l
        ez (λ j. ap (λ (t : Tables). volume_at j t) e ∙ rw ev (ch.volumes j)))

-- A new lot that has no location.
pub Inv-add_unplaced :
    {t t2 : Tables} (z : Stock)
    → Inv t
    → t2 ≡ record t { stocks = t.stocks ++ (z ∷ []) }
    → find_stock z.id t ≡ none
    → z.location_id ≡ none
    → z.reserved ≡ 0
    → z.quantity ≤ billion
    → Inv t2
Inv-add_unplaced {t} {t2} z v e new ez zero small =
    Inv-snoc z v (ap (λ (t : Tables). t.stocks) e) (ap (λ (t : Tables). t.reservations) e)
      (ap (λ (t : Tables). t.allocations) e) new zero small
      (IsBalanced-add_unplaced weight_unit (λ j. weight_at j t) (λ j. weight_at j t2) t.stocks z
        v.weights ez (λ j. ap (λ (t : Tables). weight_at j t) e))
      (IsBalanced-add_unplaced volume_unit (λ j. volume_at j t) (λ j. volume_at j t2) t.stocks z
        v.volumes ez (λ j. ap (λ (t : Tables). volume_at j t) e))

pub check_quantity-ok :
    (a r : ℕ) (n : ℤ) {b : Unit {0}}
    → check_quantity n (available (pos a) (pos r)) ≡ ok b
    → (n ≡ pos (pos_part n)) × (pos_part n + r ≤ a)
unfolding check_quantity available
check_quantity-ok a r n h = ground arith
