-- ===== src/Inventory/Life/Runs.antt =====
-- The inventory service as an implementation of the life of its reservations.
use logicore_wms.Base.{
  ℕ, false, Option, none, some, ◌≡◌, ◌≢◌, refl, sym, ap, ◌∙◌, subst, arith, leb, inl, inr,
  Bool-cases,
}
use logicore_wms.Platform.Types.{Context, Fault, fault, internal, Result, ok, err}
use logicore_wms.Platform.Json.{Payload, string_at}
use logicore_wms.Platform.Tx.{Store, Event, pure, nested, undo, lock}
use logicore_wms.Platform.Tx.Steps.{bind-then, pure-tables, emit-tables, lock-tables}
use logicore_wms.Platform.Commands.{Codec}
use logicore_wms.Inventory.Stock.{Stock}
use logicore_wms.Inventory.Tables.{Tables, confirmed}
use logicore_wms.Inventory.Capacity.{Catalog}
use logicore_wms.Inventory.Changes.{Receive, Change, Action}
use logicore_wms.Inventory.Service.{
  Command, reserving, cancelling, shipping, placing, command_of, perform, record_for, reject,
  settle, run, handle,
}
use logicore_wms.Inventory.Runs.{Direction, Run, Run-moves}
use logicore_wms.Inventory.Life.{
  Phase, Move, confirm, refuse, cancel, expire, complete, Course, rest, move, Course-trans, Evolves,
  phase,
}
use logicore_wms.Inventory.Life.Untouched.{place-Untouched, receive-Untouched, change-Untouched}
use logicore_wms.Inventory.Life.Steps.{Evolves-same, Evolves-Untouched}
use logicore_wms.Inventory.Life.Reserve.{reserve-Evolves, record_rejected-Evolves}
use logicore_wms.Inventory.Life.Fulfil.{release-Evolves, ship-Evolves}

module _ (c : Context) (cat : Catalog) (payload : Payload) where
  perform-Evolves :
      (command : Command) (s : Store Tables) {s' : Store Tables}
      → perform c cat command payload s ≡ (ok tt, s')
      → Evolves s.tables.reservations s'.tables.reservations
  perform-Evolves reserving s h = reserve-Evolves c payload s h
  perform-Evolves cancelling s h = release-Evolves c s (string_at payload "reservationId") false h
  perform-Evolves shipping s h = ship-Evolves c s cat payload h
  perform-Evolves placing s h = Evolves-Untouched (place-Untouched c cat payload) s tt h

  unmoved :
      (s : Store Tables) {s' : Store Tables}
      → pure tt s ≡ (ok tt, s')
      → Evolves s.tables.reservations s'.tables.reservations
  unmoved s h = Evolves-same (ap (λ (s : Store Tables). s.tables.reservations) (pure-tables s tt h))

  record_for-Evolves :
      (command : Command) (s : Store Tables) {s' : Store Tables}
      → record_for c command payload s ≡ (ok tt, s')
      → Evolves s.tables.reservations s'.tables.reservations
  record_for-Evolves reserving s h = record_rejected-Evolves c payload s h
  record_for-Evolves cancelling s h = unmoved s h
  record_for-Evolves shipping s h = unmoved s h
  record_for-Evolves placing s h = unmoved s h

  reject-Evolves :
      (command : Command) (f : Fault) (s : Store Tables) {s' : Store Tables}
      → reject c command payload f s ≡ (ok tt, s')
      → Evolves s.tables.reservations s'.tables.reservations
  unfolding reject
  reject-Evolves command f s h = bind-then s (record_for c command payload) _ h λ _ s1 h1 h.
      subst (λ (t : Tables). Evolves s.tables.reservations t.reservations)
        (sym (emit-tables s1 c _ _ h)) (record_for-Evolves command s h1)

  settle-Evolves :
      (command : Command) (s : Store Tables) (r : Result (Unit {0}) × Store Tables)
      {s' : Store Tables}
      → perform c cat command payload s ≡ r
      → settle c command payload (undo s r) ≡ (ok tt, s')
      → Evolves s.tables.reservations s'.tables.reservations
  settle-Evolves command s (ok _, s1) e h =
      subst (λ (s1 : Store Tables). Evolves s.tables.reservations s1.tables.reservations)
        (ap (λ r. r.1) h) (perform-Evolves command s e)
  settle-Evolves command s (err (internal m), s1) e h = absurd (cc)
  settle-Evolves command s (err (fault f), s1) {s'} e h = elim (Bool-cases (leb 500 f.status)) [
    | inl broken ↦ absurd (ground (arith, broken))
    | inr denied ↦ reject-Evolves command f s (rw denied at h)
  ]

  run-Evolves :
      (o : Option Command) (s : Store Tables) {s' : Store Tables}
      → run c cat o payload s ≡ (ok tt, s')
      → Evolves s.tables.reservations s'.tables.reservations
  unfolding nested
  run-Evolves none s h = unmoved s h
  run-Evolves (some command) s {s'} h =
      bind-then s (lock c (string_at payload "warehouseId")) _ h λ _ s1 h1 h.
        subst (λ (t : Tables). Evolves t.reservations s'.tables.reservations) (lock-tables s c _ h1)
          (settle-Evolves command s1 _ refl h)

handle-Evolves :
    (c : Context) (cat : Catalog) (e : Event) (s : Store Tables) {s' : Store Tables}
    → handle cat c e s ≡ (ok tt, s')
    → Evolves s.tables.reservations s'.tables.reservations
unfolding handle
handle-Evolves c cat e s h = run-Evolves c cat e.payload (command_of e.type) s h

pub Life-Direction : Direction (λ t t'. Evolves t.reservations t'.reservations)
Life-Direction = record {
  stay = λ t. Evolves-same refl;
  follow = λ f g k. Course-trans (f k) (g k);
  handles = λ c cat reads e. record { apply = λ s a s' h. handle-Evolves c cat e s h };
  releases = λ c id expiring. record { apply = λ s a s' h. release-Evolves c s id expiring h };
  receives =
      λ c cat q. record { apply = λ s a s' h. Evolves-Untouched (receive-Untouched c cat q) s a h };
  changes = λ c cat reads action q. record {
    apply = λ s a s' h. Evolves-Untouched (change-Untouched c cat action q) s a h;
  };
}

-- Nothing follows a status other than confirmed.
Move-confirmed : {a b : Option Phase} (p : Phase) → Move a b → a ≡ some p → p.0 ≡ confirmed
Move-confirmed p confirm e = cc
Move-confirmed p refuse e = cc
Move-confirmed p (cancel o) e = ground arith
Move-confirmed p (expire o) e = ground arith
Move-confirmed p (complete o shipment) e = ground arith

pub Course-final :
    {a b : Option Phase} (p : Phase) → p.0 ≢ confirmed → Course a b → a ≡ some p → b ≡ a
Course-final p final (rest a) e = refl
Course-final p final (move m h) e = absurd (final (Move-confirmed p m e))

module _ {receipts : Codec Receive Stock} {changes : Codec (Action × Change) Payload} where
  -- Whatever the service works off, each reservation goes through a course of the abstract life cycle,
  -- in which it is confirmed or refused at first, and a confirmed one is cancelled, expires, or is completed
  -- by one shipment.
  pub Run-Evolves :
      {s s' : Store Tables}
      → Run receipts changes s s'
      → (k : ℕ) → Course (phase k s.tables.reservations) (phase k s'.tables.reservations)
  Run-Evolves r = Run-moves Life-Direction r

  -- Once a reservation has a status other than confirmed, whatever the service works off leaves its
  -- status and its shipment as they are.
  pub Run-final :
      {s s' : Store Tables} (k : ℕ) (p : Phase)
      → Run receipts changes s s'
      → phase k s.tables.reservations ≡ some p
      → p.0 ≢ confirmed
      → phase k s'.tables.reservations ≡ some p
  Run-final k p r e final = Course-final p final (Run-Evolves r k) e ∙ e
