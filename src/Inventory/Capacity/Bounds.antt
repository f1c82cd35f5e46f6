-- ===== src/Inventory/Capacity/Bounds.antt =====
-- An increase stays within the limits of its location.
use logicore_wms.Base.{ℕ, String, true, Option, some, ◌+◌, ◌≤◌, ◌≡◌, refl, sym, subst, arith}
use logicore_wms.Base.Int.{ℤ, pos, ltb_ℤ}
use logicore_wms.Platform.Types.{Context, Result, ok, err}
use logicore_wms.Platform.Tx.{Store}
use logicore_wms.Platform.Tx.Steps.{lift-then, or_throw-then, execute-then, emit-tables}
use logicore_wms.Inventory.Stock.{Stock}
use logicore_wms.Inventory.Tables.{Tables, Capacity, find_capacity, update_capacity, open_capacity}
use logicore_wms.Inventory.Tables.Rows.{update_capacity-then}
use logicore_wms.Inventory.Capacity.{
  Catalog, Location, check_location, with_location, checked, limits, charge, capacity,
}
use logicore_wms.Inventory.Capacity.Ledger.{weight_at, volume_at}

-- The location exists, takes the lot, and has at most its limits and the tolerance of 10^-9.
pub record Fits (c : Context) (cat : Catalog) (x : Stock) (location : String) (t : Tables)
    : Type 0 where
  pub place : Location
  pub offered : cat.location location ≡ ok place
  pub takes : check_location c x place ≡ ok tt
  pub id : ℕ
  pub reads : c.cast location ≡ some id
  pub weight : weight_at id t ≤ place.max_weight + 1
  pub volume : volume_at id t ≤ place.max_volume + 1

with_location-some :
    (place : Location) (r : Result (Unit {0})) {o : Option Location}
    → with_location place r ≡ ok o
    → (o ≡ some place) × (r ≡ ok tt)
with_location-some place (ok _) h = (ground arith, refl)
with_location-some place (err e) h = cc

checked-some :
    (c : Context) (x : Stock) (r : Result Location) {o : Option Location}
    → checked c x r ≡ ok o
    → (place : Location) × (o ≡ some place) × (r ≡ ok place) × (check_location c x place ≡ ok tt)
checked-some c x (err e) h = cc
checked-some c x (ok place) h =
    let (e, q) = with_location-some place (check_location c x place) h in (place, e, refl, q)

limits-some :
    (c : Context) (cat : Catalog) (x : Stock) (location : String) (delta : ℤ) {o : Option Location}
    → ltb_ℤ (pos 0) delta ≡ true
    → limits c cat x location delta ≡ ok o
    → checked c x (cat.location location) ≡ ok o
unfolding limits
limits-some c cat x location delta more h = rw more at h

charge-bounds :
    (place : Location) (x : Stock) (delta : ℤ) (row : Capacity) {row' : Capacity}
    → charge (some place) x delta row ≡ ok row'
    → (row'.location_id ≡ row.location_id)
      × (row'.current_weight ≤ place.max_weight + 1)
      × (row'.current_volume ≤ place.max_volume + 1)
unfolding charge
charge-bounds place x delta row h = ground arith

-- The row that a charge leaves, in the tables after its update.
row-bounds :
    (l : ℕ) (place : Location) (x : Stock) (delta : ℤ) (t1 t2 : Tables) (row row' : Capacity)
    → find_capacity l t1 ≡ some row
    → charge (some place) x delta row ≡ ok row'
    → update_capacity l (λ _. some row') t1 ≡ some t2
    → (weight_at l t2 ≤ place.max_weight + 1) × (volume_at l t2 ≤ place.max_volume + 1)
row-bounds l place x delta t1 t2 row row' e4 e5 e6 =
    let (key, bw, bv) = charge-bounds place x delta row e5 in
    update_capacity-then l (λ _. some row') t1 e4 (λ y q. ground (arith, key)) e6
      λ y q u stay. (grind (arith, u.finds l, bw, q), grind (arith, u.finds l, bv, q))

-- An increase of a location's ledger that succeeds has found the location, which takes the lot, and
-- leaves the ledger within the limits of the location and the tolerance of 10^-9.
pub capacity-Fits :
    (c : Context) (cat : Catalog) (x : Stock) (location : String) (delta : ℤ) (s : Store Tables)
    {s' : Store Tables}
    → ltb_ℤ (pos 0) delta ≡ true
    → capacity c cat x location delta s ≡ (ok tt, s')
    → Fits c cat x location s'.tables
unfolding capacity
capacity-Fits c cat x location delta s {s'} more h =
    lift-then s (limits c cat x location delta) _ h λ loc e1 h.
      or_throw-then s (c.cast location) _ _ h λ l e2 h.
        execute-then s (open_capacity l x.warehouse_id) _ h λ t1 e3 h.
          or_throw-then _ (find_capacity l t1) _ _ h λ row e4 h.
            lift-then _ (charge loc x delta row) _ h λ row' e5 h.
              execute-then _ (update_capacity l (λ _. some row')) _ h λ t2 e6 h.
                let (place, e, offered, takes) =
                  checked-some c x (cat.location location)
                    (limits-some c cat x location delta more e1) in
                let (bw, bv) =
                  row-bounds l place x delta t1 t2 row row' e4
                    (subst (λ o. charge o x delta row ≡ ok row') e e5) e6 in
                subst (Fits c cat x location) (sym (emit-tables _ c _ _ h)) (record {
                  place = place;
                  offered = offered;
                  takes = takes;
                  id = l;
                  reads = e2;
                  weight = bw;
                  volume = bv;
                })
