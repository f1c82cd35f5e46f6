-- ===== src/Inventory/Tests.antt =====
-- The inventory on a small site: a lot of 20 units arrives, is placed, and is changed.
pub mod Orders
pub mod Runs
pub mod Routes
use logicore_wms.Base.{
  All, Ordered, Bool, if◌then◌else◌, some, false, ◌⊎◌, ◌≡◌, none, true, [], ◌∷◌, refl, ℕ, List, map,
  keep, sum_by,
}
use logicore_wms.Inventory.Tables.{
  find_stock, Tables, insert_stock, stock, open_capacity, update_capacity, update_stock,
}
use logicore_wms.Inventory.Effects.{Effect}
use logicore_wms.Inventory.Effects.Outcome.{change-Effect}
use logicore_wms.Base.Int.{pos}
use logicore_wms.Base.Rows.{find_row, update_row}
use logicore_wms.Samples.{site, site-reads, store_of}
use logicore_wms.Platform.Types.{Context, ok, id_check, err, invalid}
use logicore_wms.Platform.Json.{Payload, text, string_at, arr, cons, nil, obj, field, end, int}
use logicore_wms.Platform.Tx.{
  Store, lock, emit, Event, event_of, reservation_requested, product_placement_assigned,
}
use logicore_wms.Inventory.Stock.{Stock, check_quantity, available}
use logicore_wms.Inventory.Capacity.{
  Catalog, Product, Location, capacity, limits, charge, check_location,
}
use logicore_wms.Inventory.Changes.{
  Receive, Change, move, receive, received_lot, change, expiration_of, recharge, move_to, take_out,
}
use logicore_wms.Inventory.Fulfil.{place, place_at, release, ship}
use logicore_wms.Inventory.Invariant.{Inv, reserved_at}
use logicore_wms.Inventory.Invariant.Return.{reserve-release}
use logicore_wms.Inventory.Reserve.{reserve}
use logicore_wms.Inventory.Invariant.Reserve.{Reserved, reserve-Reserved, reserve-Inv}
use logicore_wms.Platform.Inbox.{process}
use logicore_wms.Platform.Commands.{Codec, command}
use logicore_wms.Inventory.Service.{handle, expire, placing, perform}
use logicore_wms.Inventory.Invariant.Release.{release-Inv}
use logicore_wms.Inventory.Invariant.Ship.{ship-Inv}
use logicore_wms.Inventory.Invariant.Handle.{handle-Inv}
use logicore_wms.Inventory.Runs.{rest, step, received, consumed, ticked}
use logicore_wms.Inventory.Invariant.Runs.{Run-Inv}
use logicore_wms.Inventory.Service.Rejection.{locked, Rejected, handle-Rejected}
use logicore_wms.Inventory.Lots.{lots_for, lot_of, is_eligible}
use logicore_wms.Inventory.Lots.Order.{Usable, Precedes, is_eligible-Usable, lots_for-Ordered}
use logicore_wms.Inventory.Capacity.Bounds.{Fits, capacity-Fits}
use logicore_wms.Inventory.Invariant.Place.{Idle, Placed, place-Placed, place-Inv}
use logicore_wms.Inventory.Invariant.Change.{receive-Inv, change-Inv}

abbrev product : Product
product = record { weight = 3; volume = 2; storage_type = "DRY"; active = true }

abbrev location : Location
location = record {
  warehouse_id = site.text 2;
  max_weight = 100;
  max_volume = 100;
  storage_type = "DRY";
  zone_type = "STORAGE";
  status = "ACTIVE";
}

abbrev pub catalog : Catalog
catalog = record {
  product = λ _. ok product;
  location = λ _. ok location;
  warehouse = λ _. ok (("status", text "ACTIVE") ∷ []);
}

abbrev pub nothing : Store Tables
nothing = store_of (record { stocks = []; capacities = []; reservations = []; allocations = [] })

nothing-Inv : Inv nothing.tables
unfolding find_row
nothing-Inv = record {
  backed = λ k. refl;
  weights = λ l. refl;
  volumes = λ l. refl;
  known = tt;
  within = tt;
}

abbrev delivery : Receive
delivery = record {
  product_id = site.text 1;
  warehouse_id = site.text 2;
  quantity = pos 20;
  batch = "B";
  expiration = "";
}

abbrev lot : Stock
lot = received_lot site delivery product none 1 2

abbrev arrived : Store Tables
arrived = (receive site catalog delivery nothing).1

receive-Inv_example : Inv arrived.tables
unfolding receive expiration_of id_check lock insert_stock emit string_at find_row
receive-Inv_example =
    receive-Inv site catalog delivery nothing {x = lot} {s' = arrived} nothing-Inv refl

arrived-Inv : Inv arrived.tables
unfolding receive expiration_of id_check lock insert_stock emit string_at find_row
arrived-Inv = receive-Inv site catalog delivery nothing {x = lot} {s' = arrived} nothing-Inv refl

abbrev assignment : Payload
assignment =
    ("stockId", text (site.text 7))
    ∷ ("warehouseId", text (site.text 2))
    ∷ ("locationId", text (site.text 4))
    ∷ []

abbrev placed : Store Tables
placed = (place site catalog assignment arrived).1

place-Placed_example :
    Inv placed.tables
    × (((placed.tables ≡ arrived.tables) × Idle site assignment arrived.tables)
        ⊎ Placed site assignment arrived.tables placed.tables)
unfolding receive expiration_of id_check lock insert_stock emit place place_at stock capacity limits
    charge open_capacity update_capacity update_stock find_row update_row check_location string_at
place-Placed_example = place-Placed site catalog arrived {s' = placed} assignment arrived-Inv refl

placed-Inv : Inv placed.tables
unfolding receive expiration_of id_check lock insert_stock emit place place_at stock capacity limits
    charge open_capacity update_capacity update_stock find_row update_row check_location string_at
placed-Inv = place-Inv site catalog arrived {s' = placed} assignment arrived-Inv refl

abbrev moving : Change
moving = record {
  stock_id = site.text 7;
  to_location_id = site.text 5;
  quantity = pos 8;
  reason = "";
}

-- The units that are moved become lot 8.
abbrev later_site : Context
later_site = record site { new_id = 8 }

abbrev moved : Store Tables
moved = (change later_site catalog move moving placed).1

change-Inv_example : Inv moved.tables
unfolding receive expiration_of id_check lock insert_stock emit place place_at stock capacity limits
    charge open_capacity update_capacity update_stock find_row update_row check_location string_at
    change take_out move_to recharge check_quantity available
change-Inv_example =
    change-Inv later_site catalog site-reads placed {s' = moved} move moving placed-Inv refl

change-Effect_example :
    (x : Stock) × (later_site.cast moving.stock_id ≡ some x.id)
    × (find_stock x.id placed.tables ≡ some x)
    × Effect later_site move moving x placed.tables.stocks moved.tables.stocks
unfolding receive expiration_of id_check lock insert_stock emit place place_at stock capacity limits
    charge open_capacity update_capacity update_stock find_row update_row check_location string_at
    change take_out move_to recharge check_quantity available
change-Effect_example = change-Effect later_site catalog placed move moving {s' = moved} refl

-- What the usable lots for the order hold.
abbrev usable_units : Stock → ℕ
usable_units x = if is_eligible 10 2 1 x then x.quantity else 0

lots_for-Ordered_example :
    (rows : List Stock) × (lots_for 10 2 1 placed.tables.stocks ≡ map lot_of rows)
    × All (Usable 10 2 1) rows
    × Ordered Precedes rows
    × (sum_by usable_units rows ≡ sum_by usable_units placed.tables.stocks)
lots_for-Ordered_example =
    lots_for-Ordered 10 2 1 placed.tables.stocks usable_units
      λ x none_of. none_counted x none_of (is_eligible 10 2 1 x) refl
  where
    none_counted :
        (x : Stock)
        → (Usable 10 2 1 x → ⊥)
        → (b : Bool) → is_eligible 10 2 1 x ≡ b
        → (if b then x.quantity else 0) ≡ 0
    none_counted x none_of true h = absurd (none_of (is_eligible-Usable 10 2 1 x h))
    none_counted x none_of false h = refl

abbrev charged : Store Tables
charged = (capacity site catalog lot (site.text 4) (pos 20) nothing).1

capacity-Fits_example : Fits site catalog lot (site.text 4) charged.tables
unfolding capacity limits charge open_capacity update_capacity find_row update_row check_location
    emit string_at
capacity-Fits_example =
    capacity-Fits site catalog lot (site.text 4) (pos 20) nothing {s' = charged} refl refl
