-- ===== src/Inventory/Invariant/Parts.antt =====
-- The invariant after the parts of an operation: a lot is changed, its location charged.
use logicore_wms.Base.{
  ℕ, some, List, ◌+◌, ◌≡◌, arith, All, subst, subst₂, sym, ap, ◌∙◌, true, is_some,
}
use logicore_wms.Base.Int.{ℤ, pos_part, neg_part}
use logicore_wms.Base.Rows.{Updated, All-Updated, find_row}
use logicore_wms.Inventory.Stock.{Stock}
use logicore_wms.Inventory.Tables.{Tables, stock_key, reservation_key}
use logicore_wms.Inventory.Capacity.Ledger.{Charged, weight_at, volume_at}
use logicore_wms.Inventory.Invariant.{
  Inv, IsWithin, IsBalanced, weight_unit, volume_unit, reserved_at, claims,
}
use logicore_wms.Inventory.Invariant.Ledgers.{IsCharged, IsBalanced-resize}
use logicore_wms.Inventory.Invariant.Claims.{reserved_at-Updated}

-- Lot `k` was `x` and is `y`; reservations and allocations are what they were.
pub record Relot (k : ℕ) (t t' : Tables) (x y : Stock) : Type 0 where
  pub row : Updated stock_key k t.stocks t'.stocks x y
  pub reservations : t'.reservations ≡ t.reservations
  pub allocations : t'.allocations ≡ t.allocations

-- The invariant after a change of a lot that leaves what is reserved of it, if the ledgers agree.
pub Inv-Relot :
    {k : ℕ} {t t' : Tables} {x y : Stock}
    → Inv t
    → Relot k t t' x y
    → y.reserved ≡ x.reserved
    → IsWithin y
    → IsBalanced (λ l. weight_at l t') weight_unit t'.stocks
    → IsBalanced (λ l. volume_at l t') volume_unit t'.stocks
    → Inv t'
Inv-Relot {k} {t} {t'} {x} {y} v r e w bw bv = record {
  backed = λ j.
      subst₂ (λ res al. reserved_at j t'.stocks ≡ claims j res al) (sym r.reservations)
        (sym r.allocations)
        (ground (
          arith,
          reserved_at-Updated r.row j,
          v.backed j,
          r.row.found,
          reserved_found k t.stocks r.row.found,
        ));
  weights = bw;
  volumes = bv;
  known =
      subst₂
        (λ res al. All (λ a. is_some (find_row reservation_key a.reservation_id res) ≡ true) al)
        (sym r.reservations) (sym r.allocations) v.known;
  within = All-Updated stock_key IsWithin r.row w v.within;
}
  where
    reserved_found :
        (k : ℕ) (l : List Stock) → find_row stock_key k l ≡ some x → reserved_at k l ≡ x.reserved
    reserved_found k l h = ground (arith, h)

-- After a charge and a change of the lot.
pub Relot-Charged :
    {l : ℕ} {delta : ℤ} {t t1 t2 : Tables} {x y : Stock}
    → Charged l delta x t t1
    → Updated stock_key x.id t1.stocks t2.stocks x y
    → t2 ≡ record t1 { stocks = t2.stocks }
    → Relot x.id t t2 x y
Relot-Charged {t2 = t2} {x = x} {y = y} ch u stay = record {
  row = subst (λ s. Updated stock_key x.id s t2.stocks x y) ch.stocks u;
  reservations = ap (λ (t : Tables). t.reservations) stay ∙ ch.reservations;
  allocations = ap (λ (t : Tables). t.allocations) stay ∙ ch.allocations;
}

-- The ledgers after a charge and a change of the lots.
module _ {l : ℕ} {delta : ℤ} {t t1 t2 : Tables} {x : Stock} (ch : Charged l delta x t t1)
    (stay : t2 ≡ record t1 { stocks = t2.stocks }) where
  pub weights-IsCharged : IsCharged l delta x.weight (λ j. weight_at j t) (λ j. weight_at j t2)
  weights-IsCharged j = ap (λ (t : Tables). weight_at j t) stay ∙ ch.weights j

  pub volumes-IsCharged : IsCharged l delta x.volume (λ j. volume_at j t) (λ j. volume_at j t2)
  volumes-IsCharged j = ap (λ (t : Tables). volume_at j t) stay ∙ ch.volumes j

-- A lot at `l` is resized, and `l` charged for it; what is reserved of it stays.
pub Inv-resize :
    {l : ℕ} {delta : ℤ} {t t1 t2 : Tables} {x y : Stock}
    → Inv t
    → Charged l delta x t t1
    → Updated stock_key x.id t1.stocks t2.stocks x y
    → t2 ≡ record t1 { stocks = t2.stocks }
    → x.location_id ≡ some l
    → y ≡ record x { quantity = y.quantity }
    → y.quantity + neg_part delta ≡ x.quantity + pos_part delta
    → IsWithin y
    → Inv t2
Inv-resize {l} {delta} {t} {t1} {t2} {x} {y} v ch u stay ex ey q w =
    let r : Relot x.id t t2 x y = Relot-Charged ch u stay in
    Inv-Relot v r (ground (arith, ey)) w
      (IsBalanced-resize weight_unit (λ j. weight_at j t) (λ j. weight_at j t2) r.row
        (ground (arith, ey)) v.weights l delta ex (ground (arith, ey)) q
        (weights-IsCharged ch stay))
      (IsBalanced-resize volume_unit (λ j. volume_at j t) (λ j. volume_at j t2) r.row
        (ground (arith, ey)) v.volumes l delta ex (ground (arith, ey)) q
        (volumes-IsCharged ch stay))
