-- ===== src/Inventory/Tests/Runs.antt =====
-- The service of the small site as its events and requests come in.
use logicore_wms.Base.{true, ◌⊎◌, ◌≡◌, none, [], ◌∷◌, refl, some, is_some, ◌≢◌, All}
use logicore_wms.Inventory.Changes.{Action, Receive, Change, receive, expiration_of}
use logicore_wms.Inventory.Routes.{Request, post_receive}
use logicore_wms.Base.Rows.{find_row, update_row}
use logicore_wms.Samples.{site, site-reads}
use logicore_wms.Platform.Types.{ok, id_check, err, invalid, Context}
use logicore_wms.Platform.Json.{Payload, text, string_at}
use logicore_wms.Platform.Tx.{
  Store, lock, emit, Event, event_of, reservation_requested, product_placement_assigned,
  shipment_requested, transaction,
}
use logicore_wms.Inventory.Stock.{Stock}
use logicore_wms.Inventory.Tables.{
  Tables, insert_stock, stock, open_capacity, update_capacity, update_stock, cancelled,
}
use logicore_wms.Inventory.Capacity.{capacity, limits, charge, check_location}
use logicore_wms.Inventory.Fulfil.{place, place_at, release}
use logicore_wms.Inventory.Invariant.{Inv}
use logicore_wms.Inventory.Reserve.{reserve}
use logicore_wms.Platform.Inbox.{process, mark}
use logicore_wms.Platform.Commands.{Codec}
use logicore_wms.Inventory.Service.{handle, expire, placing, perform, due}
use logicore_wms.Inventory.Invariant.Handle.{handle-Inv}
use logicore_wms.Inventory.Runs.{rest, step, received, consumed, ticked}
use logicore_wms.Inventory.Invariant.Runs.{Run-Inv}
use logicore_wms.Inventory.Service.Rejection.{locked, Rejected, handle-Rejected}
use logicore_wms.Inventory.Lots.{lots_for, lot_of, is_eligible}
use logicore_wms.Inventory.Tests.{
  later_site, catalog, nothing, nothing-Inv, delivery, placed, placed-Inv,
}
use logicore_wms.Inventory.Tests.Orders.{order, booked, booked-Inv, released}
use logicore_wms.Platform.Inbox.Again.{work_off}
use logicore_wms.Inventory.Service.Malformed.{handle_malformed}
use logicore_wms.Inventory.Expiry.Tick.{Gone, expire-Gone}
use logicore_wms.Inventory.Once.{handle_once}
use logicore_wms.Inventory.Life.{Course, phase}
use logicore_wms.Inventory.Life.Runs.{Run-Evolves, Run-final}

-- The order arrives as an event; and again, for a product of which there is nothing.
abbrev request : Payload → Event
request payload = event_of site 9 reservation_requested payload

abbrev handled : Store Tables
handled = (handle catalog site (request order) placed).1

handle-Inv_example : Inv handled.tables
unfolding receive expiration_of id_check lock insert_stock emit place place_at stock capacity limits
    charge open_capacity update_capacity update_stock find_row update_row check_location string_at
    reserve logicore_wms.Inventory.Reserve.reserve_new logicore_wms.Inventory.Lots.decode_lines
    logicore_wms.Inventory.Tables.insert_reservation logicore_wms.Inventory.Reserve.reserve_lines
    logicore_wms.Inventory.Reserve.reserve_line logicore_wms.Inventory.Reserve.allocate
    logicore_wms.Inventory.Lots.lots_for logicore_wms.Base.Sort.sort_by
    logicore_wms.Inventory.Lots.is_eligible logicore_wms.Inventory.Reserve.draw
    logicore_wms.Inventory.Tables.insert_allocation handle logicore_wms.Platform.Tx.nested
handle-Inv_example =
    handle-Inv site catalog site-reads (request order) placed {s' = handled} placed-Inv refl

abbrev receipts : Codec Receive Stock
receipts = record {
  fingerprint = λ q. ok q.batch;
  encode = λ x. ok x.batch;
  decode = λ _. err (invalid "");
}

abbrev changes : Codec (Action × Change) Payload
changes = record {
  fingerprint = λ q. ok q.1.reason;
  encode = λ p. ok (string_at p "stockId");
  decode = λ _. err (invalid "");
}

abbrev post : Request Receive
post = record { path = λ _. ""; query = λ _. ""; key = "key"; decoded = ok delivery; at_end = true }

-- A delivery, its placement, an order, and a tick of the expiry worker.
abbrev delivered : Store Tables
delivered = (post_receive site catalog receipts post nothing).1

abbrev ordered : Store Tables
ordered = (process site (handle catalog) (request order) delivered).1

Run-Inv_example : Inv (expire site ordered).tables
Run-Inv_example =
    Run-Inv {receipts = receipts} {changes = changes}
      (step
        (step (step (rest nothing) (received site catalog post nothing site-reads))
          (consumed site catalog (request order) delivered site-reads))
        (ticked site ordered))
      nothing-Inv

-- An order for a lot that does not exist, to be placed.
abbrev pub misplaced : Event
misplaced =
    event_of site 9 product_placement_assigned
      (("stockId", text (site.text 40)) ∷ ("warehouseId", text (site.text 2)) ∷ [])

abbrev pub told : Store Tables
told = (handle catalog site misplaced nothing).1

handle-Rejected_example :
    (perform site catalog placing misplaced.payload (locked misplaced.payload nothing)
      ≡ (ok tt, told))
    ⊎ Rejected site catalog placing misplaced.payload nothing told
unfolding handle logicore_wms.Platform.Tx.nested lock id_check place stock find_row string_at emit
    logicore_wms.Inventory.Service.reject
handle-Rejected_example =
    handle-Rejected site catalog misplaced placing nothing {s' = told} refl refl

-- The order is shipped.
abbrev leaving : Event
leaving = event_of site 9 shipment_requested order

abbrev gone : Store Tables
gone = (process site (handle catalog) (request order) placed).1

Run-Evolves_example :
    Course
      (phase 30 placed.tables.reservations)
      (phase 30 (process site (handle catalog) leaving gone).1.tables.reservations)
Run-Evolves_example =
    Run-Evolves {receipts = receipts} {changes = changes}
      (step (step (rest placed) (consumed site catalog (request order) placed site-reads))
        (consumed site catalog leaving gone site-reads))
      30

-- A shipment of what was released before.
Run-final_example :
    phase 30 (process site (handle catalog) leaving released).1.tables.reservations
    ≡ some (cancelled, none)
unfolding receive expiration_of id_check lock insert_stock emit place place_at stock capacity limits
    charge open_capacity update_capacity update_stock find_row update_row check_location string_at
    reserve logicore_wms.Inventory.Reserve.reserve_new logicore_wms.Inventory.Lots.decode_lines
    logicore_wms.Inventory.Tables.insert_reservation logicore_wms.Inventory.Reserve.reserve_lines
    logicore_wms.Inventory.Reserve.reserve_line logicore_wms.Inventory.Reserve.allocate
    logicore_wms.Inventory.Lots.lots_for logicore_wms.Base.Sort.sort_by
    logicore_wms.Inventory.Lots.is_eligible logicore_wms.Inventory.Reserve.draw
    logicore_wms.Inventory.Tables.insert_allocation release logicore_wms.Inventory.Fulfil.free
    logicore_wms.Inventory.Fulfil.unreserve_all logicore_wms.Inventory.Tables.allocations_of
    logicore_wms.Inventory.Tables.update_reservation
Run-final_example =
    Run-final {receipts = receipts} {changes = changes} 30 (cancelled, none)
      (step (rest released) (consumed site catalog leaving released site-reads)) refl (λ e. cc)

-- The order comes a second time, after its shipment.
handle_once_example :
    work_off (handle catalog) ((site, leaving) ∷ (later_site, request order) ∷ []) gone
    ≡ work_off (handle catalog) ((site, leaving) ∷ []) gone
unfolding receive expiration_of id_check lock insert_stock emit place place_at stock capacity limits
    charge open_capacity update_capacity update_stock find_row update_row check_location string_at
    reserve logicore_wms.Inventory.Reserve.reserve_new logicore_wms.Inventory.Lots.decode_lines
    logicore_wms.Inventory.Tables.insert_reservation logicore_wms.Inventory.Reserve.reserve_lines
    logicore_wms.Inventory.Reserve.reserve_line logicore_wms.Inventory.Reserve.allocate
    logicore_wms.Inventory.Lots.lots_for logicore_wms.Base.Sort.sort_by
    logicore_wms.Inventory.Lots.is_eligible logicore_wms.Inventory.Reserve.draw
    logicore_wms.Inventory.Tables.insert_allocation handle process mark transaction
    logicore_wms.Platform.Tx.nested
handle_once_example =
    handle_once catalog site later_site (request order) placed {a = tt} {s1 = gone} refl refl refl
      ((site, leaving) ∷ []) []

-- A payload without a reservation, at a site where only texts of numbers are identifiers.
abbrev strict_site : Context
strict_site = record site { is_uuid = λ s. is_some (site.cast s) }

abbrev nameless : Event
nameless = request (("warehouseId", text (site.text 2)) ∷ [])

handle_malformed_example : handle catalog strict_site nameless placed ≢ (ok tt, placed)
unfolding string_at
handle_malformed_example =
    handle_malformed strict_site catalog nameless placed placed refl refl refl

-- The order is due.
abbrev late_site : Context
late_site = record site { db_now = 3000 }

expire-Gone_example :
    All (λ r. Gone r.id (expire late_site booked).tables.reservations) (due late_site booked.tables)
expire-Gone_example = expire-Gone late_site booked site-reads (λ k. refl) booked-Inv
