-- ===== src/Inventory/Service.antt =====
-- `Handle` and `Work` of services/inventory-service/internal/application/reservations.go.
pub mod Rejection
pub mod Malformed
use logicore_wms.Base.{
  ℕ, true, false, Option, none, some, List, [], ◌∷◌, ◌&&◌, leb, take, keep, if◌then◌else◌,
}
use logicore_wms.Platform.Types.{Context, Fault, fault, internal, Result, ok, err}
use logicore_wms.Platform.Json.{Payload, text, string_at, put}
use logicore_wms.Platform.Tx.{
  Tx, Store, Event, EventType, reservation_requested, reservation_cancellation_requested,
  shipment_requested, product_placement_assigned, placement_rejected, reservation_rejected,
  shipment_rejected, reservation_cancellation_rejected, cast, pure, execute, emit, lock, nested,
  transaction, ◌>>=◌, ◌>>◌,
}
use logicore_wms.Inventory.Tables.{Tables, Reservation, rejected, confirmed, insert_rejected}
use logicore_wms.Inventory.Capacity.{Catalog}
use logicore_wms.Inventory.Reserve.{reserve}
use logicore_wms.Inventory.Fulfil.{release, ship, place, is_status}

-- The commands among the events.
pub data Command : Type 0 where
  reserving cancelling shipping placing : Command

abbrev pub command_of : EventType → Option Command
command_of reservation_requested = some reserving
command_of reservation_cancellation_requested = some cancelling
command_of shipment_requested = some shipping
command_of product_placement_assigned = some placing
command_of _ = none

-- What a command does within the savepoint.
abbrev pub perform : Context → Catalog → Command → Payload → Tx Tables (Unit {0})
perform c cat reserving payload = reserve c payload
perform c cat cancelling payload = release c (string_at payload "reservationId") false
perform c cat shipping payload = ship c cat payload
perform c cat placing payload = place c cat payload

abbrev pub rejection_of : Command → EventType
rejection_of reserving = reservation_rejected
rejection_of cancelling = reservation_cancellation_rejected
rejection_of shipping = shipment_rejected
rejection_of placing = placement_rejected

abbrev pub rejected_row : Context → ℕ → ℕ → Reservation
rejected_row c r warehouse = record {
  id = r;
  warehouse_id = warehouse;
  status = rejected;
  expires_at = c.db_now;
  shipment_id = none;
}

-- `insert into reservations … 'REJECTED' … on conflict do nothing`
unfoldable pub record_rejected : Context → Payload → Tx Tables (Unit {0})
record_rejected c payload = do
  r ← cast c (string_at payload "reservationId")
  warehouse ← cast c (string_at payload "warehouseId")
  execute (insert_rejected (rejected_row c r warehouse))

abbrev pub record_for : Context → Command → Payload → Tx Tables (Unit {0})
record_for c reserving payload = record_rejected c payload
record_for c _ payload = pure tt

-- A business fault is answered by an event that gives its code.
unfoldable pub reject : Context → Command → Payload → Fault → Tx Tables (Unit {0})
reject c command payload f = do
  record_for c command payload
  emit c (rejection_of command) (put "reason" (text f.code) payload)

-- What follows the savepoint: nothing, the rejection, or the error itself.
abbrev pub settle :
    Context
    → Command
    → Payload
    → Result (Unit {0}) × Store Tables
    → Result (Unit {0}) × Store Tables
settle c command payload (ok _, s) = (ok tt, s)
settle c command payload (err (internal m), s) = (err (internal m), s)
settle c command payload (err (fault f), s) =
    if leb 500 f.status then (err (fault f), s) else reject c command payload f s

abbrev pub attempt : Context → Catalog → Command → Payload → Tx Tables (Unit {0})
attempt c cat command payload s =
    settle c command payload (nested (perform c cat command payload) s)

abbrev pub run : Context → Catalog → Option Command → Payload → Tx Tables (Unit {0})
run c cat none payload = pure tt
run c cat (some command) payload =
    lock c (string_at payload "warehouseId") >> attempt c cat command payload

-- `Handle`
unfoldable pub handle : Catalog → Context → Event → Tx Tables (Unit {0})
handle cat c e = run c cat (command_of e.type) e.payload

-- `select … where status='CONFIRMED' and expires_at<=now() limit 100`
unfoldable pub due : Context → Tables → List Reservation
due c t =
    take 100 (keep (λ r. is_status r.status confirmed && leb r.expires_at c.db_now) t.reservations)

abbrev pub expire_one : Context → Reservation → Tx Tables (Unit {0})
expire_one c r = transaction (lock c (c.text r.warehouse_id) >> release c (c.text r.id) true)

-- The batch of a tick; a reservation whose transaction fails is left for a later tick.
unfoldable pub expire_all : Context → List Reservation → Store Tables → Store Tables
expire_all c [] s = s
expire_all c (r ∷ batch) s = let (_, s') = expire_one c r s in expire_all c batch s'

-- A tick of `Work`.
unfoldable pub expire : Context → Store Tables → Store Tables
unfolding expire_all due
expire c s = expire_all c (due c s.tables) s
