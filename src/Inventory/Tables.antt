-- ===== src/Inventory/Tables.antt =====
-- The tables of services/inventory-service/migrations/000002_inventory.up.sql and the statements
-- that the service runs on them. `none` is a constraint that refuses the new row.
pub mod Rows
use logicore_wms.Base.{
  ℕ, String, Bool, true, false, Option, none, some, List, [], ◌∷◌, ◌++◌, ◌+◌, ◌-◌, ◌&&◌, ◌||◌, leb,
  ltb, ◌==◌, any, keep, is_some, if◌then◌else◌,
}
use logicore_wms.Base.Rows.{find_row, update_row}
use logicore_wms.Platform.Types.{Context, not_found, Result, ok, err}
use logicore_wms.Platform.Tx.{Tx, Store, cast, gets, execute, or_throw, ◌>>=◌, ◌>>◌}
use logicore_wms.Inventory.Stock.{Stock}

pub record Capacity : Type 0 where
  pub location_id : ℕ
  pub warehouse_id : ℕ
  pub current_weight : ℕ
  pub current_volume : ℕ
  pub revision : ℕ

pub data Status : Type 0 where
  confirmed rejected cancelled expired completed : Status

pub record Reservation : Type 0 where
  pub id : ℕ
  pub warehouse_id : ℕ
  pub status : Status
  pub expires_at : ℕ
  pub shipment_id : Option ℕ

pub record Allocation : Type 0 where
  pub reservation_id : ℕ
  pub stock_id : ℕ
  pub quantity : ℕ

pub record Tables : Type 0 where
  pub stocks : List Stock
  pub capacities : List Capacity
  pub reservations : List Reservation
  pub allocations : List Allocation

abbrev pub stock_key : Stock → ℕ
stock_key x = x.id

abbrev pub capacity_key : Capacity → ℕ
capacity_key x = x.location_id

abbrev pub reservation_key : Reservation → ℕ
reservation_key x = x.id

abbrev pub find_stock : ℕ → Tables → Option Stock
find_stock k t = find_row stock_key k t.stocks

abbrev pub find_capacity : ℕ → Tables → Option Capacity
find_capacity k t = find_row capacity_key k t.capacities

abbrev pub find_reservation : ℕ → Tables → Option Reservation
find_reservation k t = find_row reservation_key k t.reservations

abbrev pub with_stocks : Tables → Option (List Stock) → Option Tables
with_stocks t none = none
with_stocks t (some l) = some (record t { stocks = l })

abbrev pub with_capacities : Tables → Option (List Capacity) → Option Tables
with_capacities t none = none
with_capacities t (some l) = some (record t { capacities = l })

abbrev pub with_reservations : Tables → Option (List Reservation) → Option Tables
with_reservations t none = none
with_reservations t (some l) = some (record t { reservations = l })

-- `update stocks set … where id=$1`
unfoldable pub update_stock : ℕ → (Stock → Option Stock) → Tables → Option Tables
update_stock k f t = with_stocks t (update_row stock_key k f t.stocks)

unfoldable pub update_capacity : ℕ → (Capacity → Option Capacity) → Tables → Option Tables
update_capacity k f t = with_capacities t (update_row capacity_key k f t.capacities)

unfoldable pub update_reservation : ℕ → (Reservation → Option Reservation) → Tables → Option Tables
update_reservation k f t = with_reservations t (update_row reservation_key k f t.reservations)

-- `set quantity=$2`
abbrev pub set_quantity : ℕ → Stock → Option Stock
set_quantity q x = if leb x.reserved q then some (record x { quantity = q }) else none

-- `set quantity=quantity-$2`
abbrev pub remove : ℕ → Stock → Option Stock
remove n x =
    if leb (x.reserved + n) x.quantity then some (record x { quantity = x.quantity - n }) else none

-- `set reserved_quantity=reserved_quantity+$2`
abbrev pub reserve_more : ℕ → Stock → Option Stock
reserve_more n x =
    if leb (x.reserved + n) x.quantity then some (record x { reserved = x.reserved + n }) else none

-- `set reserved_quantity=s.reserved_quantity-a.quantity`
abbrev pub unreserve : ℕ → Stock → Option Stock
unreserve n x =
    if leb n x.reserved && leb (x.reserved - n) x.quantity
    then some (record x { reserved = x.reserved - n })
    else none

-- `set quantity=quantity-$2,reserved_quantity=reserved_quantity-$2`
abbrev pub deduct : ℕ → Stock → Option Stock
deduct n x =
    if leb n x.reserved && leb x.reserved x.quantity
    then some (record x { quantity = x.quantity - n; reserved = x.reserved - n })
    else none

-- `set location_id=$2`
abbrev pub put_at : ℕ → Stock → Option Stock
put_at l x = some (record x { location_id = some l })

-- `insert into stocks …`: nothing is reserved of a new row, and it is created now.
unfoldable pub insert_stock : Context → Stock → Tables → Option Tables
insert_stock c x t =
    if is_some (find_stock x.id t) || not_positive x.weight || not_positive x.volume
    then none
    else some
        (record t { stocks = t.stocks ++ (record x { reserved = 0; created_at = c.db_now } ∷ []) })
  where
    not_positive : ℕ → Bool
    not_positive n = n == 0

-- `insert into capacities … on conflict do nothing`
unfoldable pub open_capacity : ℕ → ℕ → Tables → Option Tables
open_capacity location warehouse t =
    if is_some (find_capacity location t)
    then some t
    else some (record t {
      capacities =
          record {
            location_id = location;
            warehouse_id = warehouse;
            current_weight = 0;
            current_volume = 0;
            revision = 0;
          }
          ∷ t.capacities;
    })

unfoldable pub insert_reservation : Reservation → Tables → Option Tables
insert_reservation r t =
    if is_some (find_reservation r.id t)
    then none
    else some (record t { reservations = r ∷ t.reservations })

-- `… on conflict do nothing`
unfoldable pub insert_rejected : Reservation → Tables → Option Tables
insert_rejected r t =
    if is_some (find_reservation r.id t)
    then some t
    else some (record t { reservations = r ∷ t.reservations })

abbrev pub is_allocated : ℕ → ℕ → List Allocation → Bool
is_allocated r k = any λ a. a.reservation_id == r && a.stock_id == k

-- The pair of reservation and lot is the primary key, both refer to rows, and the quantity is
-- positive.
unfoldable pub insert_allocation : Allocation → Tables → Option Tables
insert_allocation a t =
    if is_allocated a.reservation_id a.stock_id t.allocations || a.quantity == 0
    then none
    else if is_some (find_reservation a.reservation_id t) && is_some (find_stock a.stock_id t)
    then some (record t { allocations = a ∷ t.allocations })
    else none

-- `… from allocations where reservation_id=$1`
unfoldable pub allocations_of : ℕ → Tables → List Allocation
allocations_of r t = keep (λ a. a.reservation_id == r) t.allocations

-- `stock`
unfoldable pub stock : Context → String → Tx Tables Stock
stock c id = do
  k ← cast c id
  found ← gets (find_stock k)
  or_throw found (not_found "Stock lot not found")
