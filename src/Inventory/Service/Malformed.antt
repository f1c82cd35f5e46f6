-- ===== src/Inventory/Service/Malformed.antt =====
-- An order whose reservation has no well-formed identifier.
use logicore_wms.Base.{false, none, some, ◌≡◌, ◌≢◌, refl, arith, Bool-cases, inl, inr, leb, subst}
use logicore_wms.Platform.Types.{Context, Fault, fault, internal, Result, ok, err, id_check}
use logicore_wms.Platform.Json.{Payload, string_at}
use logicore_wms.Platform.Tx.{Store, Event, lock, nested, undo}
use logicore_wms.Platform.Tx.Steps.{bind-then}
use logicore_wms.Inventory.Tables.{Tables}
use logicore_wms.Inventory.Capacity.{Catalog}
use logicore_wms.Inventory.Reserve.{reserve}
use logicore_wms.Inventory.Service.{
  reserving, command_of, record_rejected, reject, settle, attempt, run, handle,
}

module _ (c : Context) (cat : Catalog) (payload : Payload)
    (bad : c.is_uuid (string_at payload "reservationId") ≡ false)
    (uncast : c.cast (string_at payload "reservationId") ≡ none) where
  reserve-bad : (s s' : Store Tables) → reserve c payload s ≢ (ok tt, s')
  unfolding reserve id_check
  reserve-bad s s' h = ground (arith, bad, h)

  reject-bad : (f : Fault) (s s' : Store Tables) → reject c reserving payload f s ≢ (ok tt, s')
  unfolding reject record_rejected
  reject-bad f s s' h = ground (arith, uncast, h)

  settle-bad :
      (s : Store Tables) (r : Result (Unit {0}) × Store Tables) (s' : Store Tables)
      → reserve c payload s ≡ r
      → settle c reserving payload (undo s r) ≢ (ok tt, s')
  settle-bad s (ok _, s1) s' e h = reserve-bad s s1 e
  settle-bad s (err (internal m), s1) s' e h = cc
  settle-bad s (err (fault f), s1) s' e h = elim (Bool-cases (leb 500 f.status)) [
    | inl broken ↦ absurd (ground (arith, broken))
    | inr denied ↦ reject-bad f s s' (rw denied at h)
  ]

-- An order whose `reservationId` is no uuid, neither for the service nor for the database, is not
-- answered: it is neither carried out nor rejected, since the rejection cannot be recorded.
pub handle_malformed :
    (c : Context) (cat : Catalog) (e : Event) (s s' : Store Tables)
    → command_of e.type ≡ some reserving
    → c.is_uuid (string_at e.payload "reservationId") ≡ false
    → c.cast (string_at e.payload "reservationId") ≡ none
    → handle cat c e s ≢ (ok tt, s')
unfolding handle nested
handle_malformed c cat e s s' known bad uncast h =
    bind-then s (lock c (string_at e.payload "warehouseId"))
      (λ _. attempt c cat reserving e.payload)
      (subst (λ o. run c cat o e.payload s ≡ (ok tt, s')) known h)
      λ _ s1 h1 h. settle-bad c cat e.payload bad uncast s1 (reserve c e.payload s1) s' refl h
