-- ===== src/Inventory/Invariant/Handle.antt =====
-- `Handle` keeps the invariant, whether a command is carried out or rejected.
use logicore_wms.Base.{
  ℕ, false, Option, none, some, ◌≡◌, ◌∷◌, refl, sym, ap, subst, arith, inl, inr, leb, Bool-cases,
  is_some,
}
use logicore_wms.Platform.Types.{Context, Fault, fault, internal, Result, ok, err}
use logicore_wms.Platform.Json.{Payload, string_at}
use logicore_wms.Platform.Tx.{Store, Event, pure, nested, undo, lock}
use logicore_wms.Platform.Tx.Steps.{
  or_throw-then, bind-then, pure-tables, emit-tables, lock-tables, execute-end,
}
use logicore_wms.Inventory.Tables.{Tables, Reservation, find_reservation, insert_rejected}
use logicore_wms.Inventory.Capacity.{Catalog}
use logicore_wms.Inventory.Service.{
  Command, reserving, cancelling, shipping, placing, command_of, perform, record_rejected,
  rejected_row, record_for, reject, settle, run, handle,
}
use logicore_wms.Inventory.Invariant.{Inv}
use logicore_wms.Inventory.Invariant.Place.{place-Inv}
use logicore_wms.Inventory.Invariant.Reserve.{reserve-Inv, Inv-reservation}
use logicore_wms.Inventory.Invariant.Release.{release-Inv}
use logicore_wms.Inventory.Invariant.Ship.{ship-Inv}

Inv-rejected :
    (row : Reservation) (t : Tables) {t' : Tables}
    → Inv t
    → insert_rejected row t ≡ some t'
    → Inv t'
unfolding insert_rejected
Inv-rejected row t {t'} v h = elim (Bool-cases (is_some (find_reservation row.id t))) [
  | inl old ↦ subst Inv (ground (arith, old)) v
  | inr new ↦
      let e : record t { reservations = row ∷ t.reservations } ≡ t' = ground (arith, new) in
      subst Inv e (Inv-reservation row v (ground (arith, new)))
]

module _ (c : Context) (cat : Catalog) (reads : (k : ℕ) → c.cast (c.text k) ≡ some k)
    (payload : Payload) where
  perform-Inv :
      (command : Command) (s : Store Tables) {s' : Store Tables}
      → Inv s.tables
      → perform c cat command payload s ≡ (ok tt, s')
      → Inv s'.tables
  perform-Inv reserving s v h = reserve-Inv c payload s v h
  perform-Inv cancelling s v h = release-Inv c (string_at payload "reservationId") false s v h
  perform-Inv shipping s v h = ship-Inv c cat reads payload s v h
  perform-Inv placing s v h = place-Inv c cat s payload v h

  unchanged : {s s' : Store Tables} → Inv s.tables → pure tt s ≡ (ok tt, s') → Inv s'.tables
  unchanged {s} v h = subst (λ (s : Store Tables). Inv s.tables) (sym (pure-tables s tt h)) v

  record_for-Inv :
      (command : Command) (s : Store Tables) {s' : Store Tables}
      → Inv s.tables
      → record_for c command payload s ≡ (ok tt, s')
      → Inv s'.tables
  unfolding record_rejected
  record_for-Inv reserving s v h =
      or_throw-then s (c.cast (string_at payload "reservationId")) _ _ h λ r _ h.
        or_throw-then s (c.cast (string_at payload "warehouseId")) _ _ h λ warehouse _ h.
          let (t, e, stay) = execute-end s (insert_rejected (rejected_row c r warehouse)) h in
          subst Inv (sym stay) (Inv-rejected (rejected_row c r warehouse) s.tables v e)
  record_for-Inv cancelling s v h = unchanged v h
  record_for-Inv shipping s v h = unchanged v h
  record_for-Inv placing s v h = unchanged v h

  reject-Inv :
      (command : Command) (f : Fault) (s : Store Tables) {s' : Store Tables}
      → Inv s.tables
      → reject c command payload f s ≡ (ok tt, s')
      → Inv s'.tables
  unfolding reject
  reject-Inv command f s v h =
      bind-then s (record_for c command payload) _ h
        λ _ s1 h1 h. subst Inv (sym (emit-tables s1 c _ _ h)) (record_for-Inv command s v h1)

  settle-Inv :
      (command : Command) (s : Store Tables) (r : Result (Unit {0}) × Store Tables)
      {s' : Store Tables}
      → Inv s.tables
      → perform c cat command payload s ≡ r
      → settle c command payload (undo s r) ≡ (ok tt, s')
      → Inv s'.tables
  settle-Inv command s (ok _, s1) v e h =
      subst (λ (s : Store Tables). Inv s.tables) (ap (λ r. r.1) h) (perform-Inv command s v e)
  settle-Inv command s (err (internal m), s1) v e h = absurd (cc)
  settle-Inv command s (err (fault f), s1) {s'} v e h = elim (Bool-cases (leb 500 f.status)) [
    | inl broken ↦ absurd (ground (arith, broken))
    | inr denied ↦ reject-Inv command f s v (rw denied at h)
  ]

  run-Inv :
      (o : Option Command) (s : Store Tables) {s' : Store Tables}
      → Inv s.tables
      → run c cat o payload s ≡ (ok tt, s')
      → Inv s'.tables
  unfolding nested
  run-Inv none s v h = unchanged v h
  run-Inv (some command) s v h =
      bind-then s (lock c (string_at payload "warehouseId")) _ h
        λ _ s1 h1 h. settle-Inv command s1 _ (subst Inv (sym (lock-tables s c _ h1)) v) refl h

-- An event that is handled keeps the invariant, whether its command succeeds or is rejected.
pub handle-Inv :
    (c : Context) (cat : Catalog)
    → ((k : ℕ) → c.cast (c.text k) ≡ some k)
    → (e : Event) (s : Store Tables) {s' : Store Tables} → Inv s.tables
    → handle cat c e s ≡ (ok tt, s')
    → Inv s'.tables
unfolding handle
handle-Inv c cat reads e s v h = run-Inv c cat reads e.payload (command_of e.type) s v h
