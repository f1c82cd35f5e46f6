-- ===== src/Inventory/Once.antt =====
-- The inventory service works off each event once, although its topic may deliver it again.
use logicore_wms.Base.{
  ℕ, String, false, Bool, Option, none, some, List, ◌∷◌, ◌++◌, ◌≡◌, refl, ◌∙◌, arith, leb, inl, inr,
  Bool-cases,
}
use logicore_wms.Platform.Types.{Context, Fault, fault, internal, Result, ok, err}
use logicore_wms.Platform.Json.{Payload, string_at}
use logicore_wms.Platform.Tx.{Store, Tx, EventType, Event, execute, emit, lock, nested, undo}
use logicore_wms.Platform.Tx.Frame.{Frames, frames, Frames-pure, Frames-part, Frames-then}
use logicore_wms.Platform.Inbox.{process}
use logicore_wms.Platform.Inbox.Again.{LeavesInbox, work_off, work_off_again}
use logicore_wms.Inventory.Tables.{
  Tables, Reservation, Status, confirmed, rejected, cancelled, expired, completed,
}
use logicore_wms.Inventory.Capacity.{Catalog}
use logicore_wms.Inventory.Reserve.{reserve, reserve_new}
use logicore_wms.Inventory.Fulfil.{free, release_row, release, ship_row, ship}
use logicore_wms.Inventory.Service.{
  Command, reserving, cancelling, shipping, placing, command_of, perform, record_rejected,
  record_for, reject, settle, attempt, run, handle,
}
use logicore_wms.Inventory.Life.Untouched.{
  Untouched, reserve_lines-Untouched, unreserve_all-Untouched, ship_lines-Untouched,
  place-Untouched,
}

-- An action that leaves the inbox alone.
abbrev Leaves : {A : Type 0} → Tx Tables A → Type 0
Leaves m = Frames (λ s. s.processed) m

Untouched-Leaves : {A : Type 0} {m : Tx Tables A} → Untouched m → Leaves m
Untouched-Leaves u = Frames-part (λ p. p.1) u

execute-Leaves : (f : Tables → Option Tables) → Leaves (execute f)
execute-Leaves f = record { apply = λ s a s' h. ground arith }

emit-Leaves : (c : Context) (kind : EventType) (p : Payload) → Leaves (emit c kind p)
unfolding emit
emit-Leaves c kind p = record { apply = λ s a s' h. ground arith }

lock-Leaves : (c : Context) (w : String) → Leaves (lock c w)
unfolding lock
lock-Leaves c w = record { apply = λ s a s' h. ground arith }

ruleset leaves = (frames, execute-Leaves, emit-Leaves, lock-Leaves)

module _ (c : Context) where
  reserve_new-Leaves : (payload : Payload) (r : ℕ) → Leaves (reserve_new c payload r)
  unfolding reserve_new
  reserve_new-Leaves payload r = search (leaves, Untouched-Leaves, reserve_lines-Untouched) depth 25

  reserve-Leaves : (payload : Payload) → Leaves (reserve c payload)
  unfolding reserve
  reserve-Leaves payload = search (leaves, reserve_new-Leaves) depth 25

  free-Leaves : (id : String) (r : Reservation) (expiring : Bool) → Leaves (free c id r expiring)
  unfolding free
  free-Leaves id r expiring = search (leaves, Untouched-Leaves, unreserve_all-Untouched) depth 25

  release_row-Leaves :
      (id : String) (r : Reservation) (expiring : Bool) (status : Status)
      → Leaves (release_row c id r expiring status)
  release_row-Leaves id r expiring confirmed = free-Leaves id r expiring
  release_row-Leaves id r expiring completed = search (leaves)
  release_row-Leaves id r expiring rejected = Frames-pure tt
  release_row-Leaves id r expiring cancelled = Frames-pure tt
  release_row-Leaves id r expiring expired = Frames-pure tt

  release-Leaves : (id : String) (expiring : Bool) → Leaves (release c id expiring)
  unfolding release
  release-Leaves id expiring = search (leaves, release_row-Leaves) depth 25

  record_rejected-Leaves : (payload : Payload) → Leaves (record_rejected c payload)
  unfolding record_rejected
  record_rejected-Leaves payload = search (leaves) depth 25

  record_for-Leaves :
      (command : Command) (payload : Payload) → Leaves (record_for c command payload)
  record_for-Leaves reserving payload = record_rejected-Leaves payload
  record_for-Leaves cancelling payload = Frames-pure tt
  record_for-Leaves shipping payload = Frames-pure tt
  record_for-Leaves placing payload = Frames-pure tt

  reject-Leaves :
      (command : Command) (payload : Payload) (f : Fault) → Leaves (reject c command payload f)
  unfolding reject
  reject-Leaves command payload f = search (leaves, record_for-Leaves) depth 25

  module _ (cat : Catalog) (payload : Payload) where
    ship_row-Leaves : (r : Reservation) → Leaves (ship_row c cat payload r)
    unfolding ship_row
    ship_row-Leaves r = search (leaves, Untouched-Leaves, ship_lines-Untouched) depth 25

    ship-Leaves : Leaves (ship c cat payload)
    unfolding ship
    ship-Leaves = search (leaves, ship_row-Leaves) depth 25

    perform-Leaves : (command : Command) → Leaves (perform c cat command payload)
    perform-Leaves reserving = reserve-Leaves payload
    perform-Leaves cancelling = release-Leaves (string_at payload "reservationId") false
    perform-Leaves shipping = ship-Leaves
    perform-Leaves placing = Untouched-Leaves (place-Untouched c cat payload)

    settle-Leaves :
        (command : Command) (s : Store Tables) (r : Result (Unit {0}) × Store Tables) {a : Unit {0}}
        {s' : Store Tables}
        → perform c cat command payload s ≡ r
        → settle c command payload (undo s r) ≡ (ok a, s')
        → s'.processed ≡ s.processed
    settle-Leaves command s (ok b, s1) {a} {s'} e h = (perform-Leaves command).apply s b s' (e ∙ h)
    settle-Leaves command s (err (internal m), s1) e h = absurd (cc)
    settle-Leaves command s (err (fault f), s1) {a} {s'} e h =
        elim (Bool-cases (leb 500 f.status)) [
          | inl broken ↦ absurd (ground (arith, broken))
          | inr denied ↦ (reject-Leaves command payload f).apply s a s' (rw denied at h)
        ]

    attempt-Leaves : (command : Command) → Leaves (attempt c cat command payload)
    unfolding nested
    attempt-Leaves command = record { apply = λ s a s' h. settle-Leaves command s _ refl h }

    run-Leaves : (o : Option Command) → Leaves (run c cat o payload)
    run-Leaves none = Frames-pure tt
    run-Leaves (some command) = Frames-then (lock-Leaves c _) (attempt-Leaves command)

handle-Leaves : (cat : Catalog) → LeavesInbox (handle cat)
unfolding handle
handle-Leaves cat c e = run-Leaves c cat e.payload (command_of e.type)

-- An event that the inventory service has processed may be delivered again at any later time: the
-- service ends in the same state as if it had not been.
pub handle_once :
    (cat : Catalog) (c c' : Context) (e : Event) (s : Store Tables) {a : Unit {0}}
    {s1 : Store Tables}
    → process c (handle cat) e s ≡ (ok a, s1)
    → c'.name ≡ c.name
    → c'.cast e.id ≡ c.cast e.id
    → (l l' : List (Context × Event))
    → work_off (handle cat) (l ++ ((c', e) ∷ l')) s1 ≡ work_off (handle cat) (l ++ l') s1
handle_once cat c c' e s run name cast_id l l' =
    work_off_again (handle cat) (handle-Leaves cat) c c' e s run name cast_id l l'
