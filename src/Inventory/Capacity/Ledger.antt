-- ===== src/Inventory/Capacity/Ledger.antt =====
-- What a successful `capacity` does to the ledger, and that it touches nothing else.
use logicore_wms.Base.{ℕ, String, Option, none, some, ◌≡◌, ◌==◌, if◌then◌else◌, arith}
use logicore_wms.Base.Int.{ℤ, pos_part}
use logicore_wms.Base.Rows.{find_row}
use logicore_wms.Platform.Types.{Context, ok}
use logicore_wms.Platform.Tx.{Store}
use logicore_wms.Platform.Tx.Steps.{lift-then, or_throw-then, execute-then, emit-tables}
use logicore_wms.Inventory.Stock.{Stock}
use logicore_wms.Inventory.Tables.{Tables, Capacity, find_capacity, update_capacity, open_capacity}
use logicore_wms.Inventory.Tables.Rows.{update_capacity-then}
use logicore_wms.Inventory.Capacity.{Catalog, Location, limits, shift, charge, capacity}

abbrev weight_of : Option Capacity → ℕ
weight_of none = 0
weight_of (some r) = r.current_weight

abbrev volume_of : Option Capacity → ℕ
volume_of none = 0
volume_of (some r) = r.current_volume

-- What the ledger has for a location: nothing if it has no row.
abbrev pub weight_at : ℕ → Tables → ℕ
weight_at l t = weight_of (find_capacity l t)

abbrev pub volume_at : ℕ → Tables → ℕ
volume_at l t = volume_of (find_capacity l t)

-- The ledger of location `l` has taken `delta` units of `x`, and the rest is as it was.
pub record Charged (l : ℕ) (delta : ℤ) (x : Stock) (t t' : Tables) : Type 0 where
  pub stocks : t'.stocks ≡ t.stocks
  pub reservations : t'.reservations ≡ t.reservations
  pub allocations : t'.allocations ≡ t.allocations
  pub weights :
      (j : ℕ)
      → weight_at j t'
        ≡ (if l == j then pos_part (shift (weight_at l t) delta x.weight) else weight_at j t)
  pub volumes :
      (j : ℕ)
      → volume_at j t'
        ≡ (if l == j then pos_part (shift (volume_at l t) delta x.volume) else volume_at j t)

-- Opening a ledger changes no weight or volume.
open_capacity-weights :
    (l w : ℕ) (t : Tables) {t' : Tables} (j : ℕ)
    → open_capacity l w t ≡ some t'
    → (weight_at j t' ≡ weight_at j t) × (volume_at j t' ≡ volume_at j t)
unfolding open_capacity find_row
open_capacity-weights l w t j h = ground arith

open_capacity-same :
    (l w : ℕ) (t : Tables) {t' : Tables}
    → open_capacity l w t ≡ some t'
    → (t'.stocks ≡ t.stocks) × (t'.reservations ≡ t.reservations) × (t'.allocations ≡ t.allocations)
unfolding open_capacity
open_capacity-same l w t h = ground arith

charge-weights :
    (loc : Option Location) (x : Stock) (delta : ℤ) (row : Capacity) {row' : Capacity}
    → charge loc x delta row ≡ ok row'
    → (row'.location_id ≡ row.location_id)
      × (row'.current_weight ≡ pos_part (shift row.current_weight delta x.weight))
      × (row'.current_volume ≡ pos_part (shift row.current_volume delta x.volume))
unfolding charge
charge-weights loc x delta row h = ground arith

-- The steps of `capacity` on the tables, put together.
Charged-steps :
    (l w : ℕ) (delta : ℤ) (x : Stock) (loc : Option Location) (t t1 t2 : Tables)
    (row row' : Capacity)
    → open_capacity l w t ≡ some t1
    → find_capacity l t1 ≡ some row
    → charge loc x delta row ≡ ok row'
    → update_capacity l (λ _. some row') t1 ≡ some t2
    → Charged l delta x t t2
Charged-steps l w delta x loc t t1 t2 row row' e3 e4 e5 e6 =
    let (key, cw, cv) = charge-weights loc x delta row e5 in
    let (st, re, al) = open_capacity-same l w t e3 in
    update_capacity-then l (λ _. some row') t1 e4 (λ y q. ground (arith, key)) e6
      λ y q u stay. record {
        stocks = rw stay st;
        reservations = rw stay re;
        allocations = rw stay al;
        weights = λ j.
            grind (
              arith,
              u.finds j,
              open_capacity-weights l w t j e3,
              open_capacity-weights l w t l e3,
            );
        volumes = λ j.
            grind (
              arith,
              u.finds j,
              open_capacity-weights l w t j e3,
              open_capacity-weights l w t l e3,
            );
      }

pub capacity-Charged :
    (c : Context) (cat : Catalog) (x : Stock) (location : String) (delta : ℤ) (s : Store Tables)
    {s' : Store Tables}
    → capacity c cat x location delta s ≡ (ok tt, s')
    → (l : ℕ) × (c.cast location ≡ some l) × Charged l delta x s.tables s'.tables
unfolding capacity
capacity-Charged c cat x location delta s {s'} h =
    lift-then s (limits c cat x location delta) _ h λ loc e1 h.
      or_throw-then s (c.cast location) _ _ h λ l e2 h.
        execute-then s (open_capacity l x.warehouse_id) _ h λ t1 e3 h.
          or_throw-then _ (find_capacity l t1) _ _ h λ row e4 h.
            lift-then _ (charge loc x delta row) _ h λ row' e5 h.
              execute-then _ (update_capacity l (λ _. some row')) _ h λ t2 e6 h. (
                l,
                e2,
                rw (emit-tables _ c _ _ h) (
                    Charged-steps l x.warehouse_id delta x loc s.tables t1 t2 row row' e3 e4 e5 e6),
              )
