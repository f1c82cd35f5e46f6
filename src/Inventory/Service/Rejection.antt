-- ===== src/Inventory/Service/Rejection.antt =====
-- What `Handle` leaves of a command: what it did, or nothing but its rejection.
use logicore_wms.Base.{
  false, Option, none, some, [], ◌∷◌, ◌++◌, ◌≡◌, ◌<◌, refl, sym, ap, ◌∙◌, subst, arith, ◌⊎◌, inl,
  inr, leb, Bool-cases, length,
}
use logicore_wms.Platform.Types.{Context, Fault, fault, internal, Result, ok, err}
use logicore_wms.Platform.Json.{Payload, string_at, put, text}
use logicore_wms.Platform.Tx.{Store, Event, nested, undo, lock, emit, pending_of}
use logicore_wms.Platform.Tx.Steps.{or_throw-then, bind-then, pure-tables}
use logicore_wms.Inventory.Tables.{Tables, Reservation, insert_rejected}
use logicore_wms.Inventory.Capacity.{Catalog}
use logicore_wms.Inventory.Service.{
  Command, reserving, cancelling, shipping, placing, command_of, perform, rejection_of,
  record_rejected, rejected_row, record_for, reject, settle, attempt, run, handle,
}

-- The store of a transaction that has taken the lock of the payload's warehouse.
abbrev pub locked : Payload → Store Tables → Store Tables
locked payload s = record s { locks = (0, string_at payload "warehouseId") ∷ s.locks }

-- A command has failed with a fault below 500. Lots, ledgers and allocations are as they were, and
-- the outbox has one event more, the rejection with the code of the fault.
pub record Rejected (c : Context) (cat : Catalog) (command : Command) (payload : Payload)
    (s s' : Store Tables) : Type 0 where
  pub reason : Fault
  pub fails : (perform c cat command payload (locked payload s)).0 ≡ err (fault reason)
  pub expected : reason.status < 500
  pub tells :
      s'.outbox
      ≡ s.outbox
        ++ (pending_of c
              (length s.outbox)
              (rejection_of command)
              (put "reason" (text reason.code) payload)
            ∷ [])
  pub stocks : s'.tables.stocks ≡ s.tables.stocks
  pub capacities : s'.tables.capacities ≡ s.tables.capacities
  pub allocations : s'.tables.allocations ≡ s.tables.allocations

-- Only the reservations may have changed.
record Noted (s s' : Store Tables) : Type 0 where
  outbox : s'.outbox ≡ s.outbox
  stocks : s'.tables.stocks ≡ s.tables.stocks
  capacities : s'.tables.capacities ≡ s.tables.capacities
  allocations : s'.tables.allocations ≡ s.tables.allocations

Noted-same : {s s' : Store Tables} → s' ≡ s → Noted s s'
Noted-same e = record {
  outbox = ap (λ (s : Store Tables). s.outbox) e;
  stocks = ap (λ (s : Store Tables). s.tables.stocks) e;
  capacities = ap (λ (s : Store Tables). s.tables.capacities) e;
  allocations = ap (λ (s : Store Tables). s.tables.allocations) e;
}

module _ (c : Context) (cat : Catalog) (payload : Payload) where
  insert_rejected-Noted :
      (row : Reservation) (o : Option Tables) (s : Store Tables) {s' : Store Tables}
      → insert_rejected row s.tables ≡ o
      → elim o as (λ _. Result (Unit {0}) × Store Tables) [
        | none ↦ (err (internal "constraint violation"), s)
        | some t ↦ (ok tt, record s { tables = t })
      ]
        ≡ (ok tt, s')
      → Noted s s'
  unfolding insert_rejected
  insert_rejected-Noted row o s e h = record {
    outbox = ground (arith, e, h);
    stocks = ground (arith, e, h);
    capacities = ground (arith, e, h);
    allocations = ground (arith, e, h);
  }

  record_for-Noted :
      (command : Command) (s : Store Tables) {s' : Store Tables}
      → record_for c command payload s ≡ (ok tt, s')
      → Noted s s'
  unfolding record_rejected
  record_for-Noted reserving s h =
      or_throw-then s (c.cast (string_at payload "reservationId")) _ _ h λ r _ h.
        or_throw-then s (c.cast (string_at payload "warehouseId")) _ _ h λ warehouse _ h.
          insert_rejected-Noted (rejected_row c r warehouse)
            (insert_rejected (rejected_row c r warehouse) s.tables) s refl h
  record_for-Noted cancelling s h = Noted-same (pure-tables s tt h)
  record_for-Noted shipping s h = Noted-same (pure-tables s tt h)
  record_for-Noted placing s h = Noted-same (pure-tables s tt h)

  reject-Rejected :
      (command : Command) (f : Fault) (s : Store Tables) {s' : Store Tables}
      → (perform c cat command payload (locked payload s)).0 ≡ err (fault f)
      → leb 500 f.status ≡ false
      → reject c command payload f (locked payload s) ≡ (ok tt, s')
      → Rejected c cat command payload s s'
  unfolding reject emit
  reject-Rejected command f s {s'} fails low h =
      bind-then (locked payload s) (record_for c command payload) _ h λ _ s1 h1 h.
        let n = record_for-Noted command (locked payload s) h1 in
        record {
          reason = f;
          fails = fails;
          expected = ground (arith, low);
          tells =
              ap (λ (r : Result (Unit {0}) × Store Tables). r.1.outbox) (sym h)
              ∙ ap
                  (λ o.
                    o
                    ++ (pending_of c (length o) (rejection_of command)
                          (put "reason" (text f.code) payload)
                        ∷ []))
                  n.outbox;
          stocks =
              ap (λ (r : Result (Unit {0}) × Store Tables). r.1.tables.stocks) (sym h) ∙ n.stocks;
          capacities =
              ap (λ (r : Result (Unit {0}) × Store Tables). r.1.tables.capacities) (sym h)
              ∙ n.capacities;
          allocations =
              ap (λ (r : Result (Unit {0}) × Store Tables). r.1.tables.allocations) (sym h)
              ∙ n.allocations;
        }

  settle-Rejected :
      (command : Command) (s : Store Tables) (r : Result (Unit {0}) × Store Tables)
      {s' : Store Tables}
      → perform c cat command payload (locked payload s) ≡ r
      → settle c command payload (undo (locked payload s) r) ≡ (ok tt, s')
      → (perform c cat command payload (locked payload s) ≡ (ok tt, s'))
        ⊎ Rejected c cat command payload s s'
  settle-Rejected command s (ok _, s1) e h = inl (e ∙ h)
  settle-Rejected command s (err (internal m), s1) e h = absurd (cc)
  settle-Rejected command s (err (fault f), s1) e h = elim (Bool-cases (leb 500 f.status)) [
    | inl broken ↦ absurd (ground (arith, broken))
    | inr denied ↦ inr (
        reject-Rejected command f s (ap (λ (r : Result (Unit {0}) × Store Tables). r.0) e) denied
          (rw denied at h))
  ]

  lock-locked :
      (s : Store Tables) {s1 : Store Tables} {b : Unit {0}}
      → lock c (string_at payload "warehouseId") s ≡ (ok b, s1)
      → s1 ≡ locked payload s
  unfolding lock
  lock-locked s h = ground arith

-- A command that is handled was carried out under the lock of its warehouse, or it has failed with a
-- fault below 500 and is rejected: lots, ledgers and allocations are as they were, and the outbox has
-- one event more, the rejection with the code of the fault.
pub handle-Rejected :
    (c : Context) (cat : Catalog) (e : Event) (command : Command) (s : Store Tables)
    {s' : Store Tables}
    → command_of e.type ≡ some command
    → handle cat c e s ≡ (ok tt, s')
    → (perform c cat command e.payload (locked e.payload s) ≡ (ok tt, s'))
      ⊎ Rejected c cat command e.payload s s'
unfolding handle nested
handle-Rejected c cat e command s {s'} known h =
    bind-then s (lock c (string_at e.payload "warehouseId")) (λ _. attempt c cat command e.payload)
      (subst (λ o. run c cat o e.payload s ≡ (ok tt, s')) known h)
      λ _ s1 h1 h. settle-Rejected c cat e.payload command s _ refl (
        subst (λ (s1 : Store Tables). attempt c cat command e.payload s1 ≡ (ok tt, s'))
          (lock-locked c cat e.payload s h1) h)
