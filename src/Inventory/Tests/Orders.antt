-- ===== src/Inventory/Tests/Orders.antt =====
-- An order on the small site: it is reserved, and then released or shipped.
use logicore_wms.Base.{some, false, ◌⊎◌, ◌≡◌, none, true, [], ◌∷◌, refl, ℕ, List, map, keep, sum_by}
use logicore_wms.Inventory.Tables.{
  find_stock, Tables, insert_stock, stock, open_capacity, update_capacity, update_stock,
}
use logicore_wms.Base.Int.{pos}
use logicore_wms.Base.Rows.{find_row, update_row}
use logicore_wms.Samples.{site, site-reads}
use logicore_wms.Platform.Types.{id_check}
use logicore_wms.Platform.Json.{Payload, text, string_at, arr, cons, nil, obj, field, end, int}
use logicore_wms.Platform.Tx.{Store, lock, emit}
use logicore_wms.Inventory.Capacity.{capacity, limits, charge, check_location}
use logicore_wms.Inventory.Changes.{receive, expiration_of}
use logicore_wms.Inventory.Fulfil.{place, place_at, release, ship}
use logicore_wms.Inventory.Invariant.{Inv, reserved_at}
use logicore_wms.Inventory.Invariant.Return.{reserve-release}
use logicore_wms.Inventory.Reserve.{reserve}
use logicore_wms.Inventory.Invariant.Reserve.{reserve-Inv}
use logicore_wms.Inventory.Invariant.Filled.{Filled, reserve-Filled}
use logicore_wms.Inventory.Invariant.Release.{release-Inv}
use logicore_wms.Inventory.Invariant.Ship.{Done, Shipped, ship-Shipped}
use logicore_wms.Inventory.Lots.{lots_for, lot_of, is_eligible}
use logicore_wms.Inventory.Tests.{catalog, placed, placed-Inv}

-- An order of five units, in one line.
abbrev pub order : Payload
order =
    ("reservationId", text (site.text 30))
    ∷ ("warehouseId", text (site.text 2))
    ∷ ("shipmentId", text (site.text 31))
    ∷ ("expiresAt", text "soon")
    ∷ (
      "items",
      arr (
          cons (obj (field "productId" (text (site.text 1)) (field "quantity" (int (pos 5)) end)))
            nil),
    )
    ∷ []

abbrev pub booked : Store Tables
booked = (reserve site order placed).1

reserve-Filled_example :
    (booked.tables ≡ placed.tables) ⊎ Filled site order placed.tables booked.tables
unfolding receive expiration_of id_check lock insert_stock emit place place_at stock capacity limits
    charge open_capacity update_capacity update_stock find_row update_row check_location string_at
    reserve logicore_wms.Inventory.Reserve.reserve_new logicore_wms.Inventory.Lots.decode_lines
    logicore_wms.Inventory.Tables.insert_reservation logicore_wms.Inventory.Reserve.reserve_lines
    logicore_wms.Inventory.Reserve.reserve_line logicore_wms.Inventory.Reserve.allocate
    logicore_wms.Inventory.Lots.lots_for logicore_wms.Base.Sort.sort_by
    logicore_wms.Inventory.Lots.is_eligible logicore_wms.Inventory.Reserve.draw
    logicore_wms.Inventory.Tables.insert_allocation
reserve-Filled_example = reserve-Filled site order placed placed-Inv (tt, tt) booked refl

pub booked-Inv : Inv booked.tables
unfolding receive expiration_of id_check lock insert_stock emit place place_at stock capacity limits
    charge open_capacity update_capacity update_stock find_row update_row check_location string_at
    reserve logicore_wms.Inventory.Reserve.reserve_new logicore_wms.Inventory.Lots.decode_lines
    logicore_wms.Inventory.Tables.insert_reservation logicore_wms.Inventory.Reserve.reserve_lines
    logicore_wms.Inventory.Reserve.reserve_line logicore_wms.Inventory.Reserve.allocate
    logicore_wms.Inventory.Lots.lots_for logicore_wms.Base.Sort.sort_by
    logicore_wms.Inventory.Lots.is_eligible logicore_wms.Inventory.Reserve.draw
    logicore_wms.Inventory.Tables.insert_allocation
booked-Inv = reserve-Inv site order placed {s' = booked} placed-Inv refl

abbrev pub released : Store Tables
released = (release site (site.text 30) false booked).1

release-Inv_example : Inv released.tables
unfolding receive expiration_of id_check lock insert_stock emit place place_at stock capacity limits
    charge open_capacity update_capacity update_stock find_row update_row check_location string_at
    reserve logicore_wms.Inventory.Reserve.reserve_new logicore_wms.Inventory.Lots.decode_lines
    logicore_wms.Inventory.Tables.insert_reservation logicore_wms.Inventory.Reserve.reserve_lines
    logicore_wms.Inventory.Reserve.reserve_line logicore_wms.Inventory.Reserve.allocate
    logicore_wms.Inventory.Lots.lots_for logicore_wms.Base.Sort.sort_by
    logicore_wms.Inventory.Lots.is_eligible logicore_wms.Inventory.Reserve.draw
    logicore_wms.Inventory.Tables.insert_allocation release logicore_wms.Inventory.Fulfil.free
    logicore_wms.Inventory.Fulfil.unreserve_all logicore_wms.Inventory.Tables.allocations_of
    logicore_wms.Inventory.Tables.update_reservation
release-Inv_example = release-Inv site (site.text 30) false booked {s' = released} booked-Inv refl

reserve-release_example : reserved_at 7 released.tables.stocks ≡ reserved_at 7 placed.tables.stocks
unfolding receive expiration_of id_check lock insert_stock emit place place_at stock capacity limits
    charge open_capacity update_capacity update_stock find_row update_row check_location string_at
    reserve logicore_wms.Inventory.Reserve.reserve_new logicore_wms.Inventory.Lots.decode_lines
    logicore_wms.Inventory.Tables.insert_reservation logicore_wms.Inventory.Reserve.reserve_lines
    logicore_wms.Inventory.Reserve.reserve_line logicore_wms.Inventory.Reserve.allocate
    logicore_wms.Inventory.Lots.lots_for logicore_wms.Base.Sort.sort_by
    logicore_wms.Inventory.Lots.is_eligible logicore_wms.Inventory.Reserve.draw
    logicore_wms.Inventory.Tables.insert_allocation release logicore_wms.Inventory.Fulfil.free
    logicore_wms.Inventory.Fulfil.unreserve_all logicore_wms.Inventory.Tables.allocations_of
    logicore_wms.Inventory.Tables.update_reservation
reserve-release_example =
    reserve-release site site order false 30 placed {s1 = booked} {s2 = released} placed-Inv refl
      refl refl refl refl 7

abbrev shipped : Store Tables
shipped = (ship site catalog order booked).1

ship-Shipped_example :
    Inv shipped.tables
    × (((shipped.tables ≡ booked.tables) × Done site order booked.tables)
        ⊎ Shipped site order booked.tables shipped.tables)
unfolding receive expiration_of id_check lock insert_stock emit place place_at stock capacity limits
    charge open_capacity update_capacity update_stock find_row update_row check_location string_at
    reserve logicore_wms.Inventory.Reserve.reserve_new logicore_wms.Inventory.Lots.decode_lines
    logicore_wms.Inventory.Tables.insert_reservation logicore_wms.Inventory.Reserve.reserve_lines
    logicore_wms.Inventory.Reserve.reserve_line logicore_wms.Inventory.Reserve.allocate
    logicore_wms.Inventory.Lots.lots_for logicore_wms.Base.Sort.sort_by
    logicore_wms.Inventory.Lots.is_eligible logicore_wms.Inventory.Reserve.draw
    logicore_wms.Inventory.Tables.insert_allocation ship logicore_wms.Inventory.Fulfil.ship_row
    logicore_wms.Inventory.Fulfil.ship_lines logicore_wms.Inventory.Fulfil.ship_line
    logicore_wms.Inventory.Tables.allocations_of logicore_wms.Inventory.Tables.update_reservation
ship-Shipped_example =
    ship-Shipped site catalog site-reads order booked {s' = shipped} booked-Inv refl
