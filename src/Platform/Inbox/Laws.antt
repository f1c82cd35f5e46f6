-- ===== src/Platform/Inbox/Laws.antt =====
-- Redelivery of an event, for any handler that leaves the inbox alone.
use logicore_wms.Base.{
  sym, subst, ◌∙◌, ℕ, String, true, some, List, [], ◌∷◌, ◌≡◌, refl, arith, eq_refl, Option-cases,
  Bool-cases, inl, inr,
}
use logicore_wms.Platform.Types.{Context, Result, ok, err}
use logicore_wms.Platform.Tx.{Store, Event, transaction, end_of}
use logicore_wms.Platform.Inbox.{Handler, is_marked, mark, process}

-- Whether the inbox of the service has the event.
abbrev pub IsMarked : {T : Type 0} → Context → Event → Store T → Type 0
IsMarked c e s = (k : ℕ) × (c.cast e.id ≡ some k) × (is_marked k c.name s.processed ≡ true)

-- What a call that began at `s` has settled.
abbrev pub Settles : {T : Type 0} → Context → Event → Store T → Result (Unit {0}) × Store T → Type 0
Settles c e s (ok _, s') = IsMarked c e s'
Settles c e s (err _, s') = s' ≡ s

is_marked_self :
    (k : ℕ) (name : String) (rows : List (ℕ × String)) → is_marked k name ((k, name) ∷ rows) ≡ true
is_marked_self k name rows = ground (arith, eq_refl name)

module _ {T : Type 0} (c : Context) (e : Event) where
  settles :
      (s : Store T) (k : ℕ) (r : Result (Unit {0}) × Store T)
      → c.cast e.id ≡ some k
      → is_marked k c.name r.1.processed ≡ true
      → Settles c e s (end_of s r)
  settles s k (ok a, s') q m = (k, q, m)
  settles s k (err x, s') q m = refl

module _ {T : Type 0} (h : Handler T) (c : Context) (e : Event)
    (keeps : (s : Store T) → (h c e s).1.processed ≡ s.processed) where
  -- An event that was processed has its marker, and one whose handler failed has left no trace, in
  -- the inbox or elsewhere.
  pub process-Settles : (s : Store T) → Settles c e s (process c h e s)
  unfolding process mark transaction
  process-Settles s = elim (Option-cases (c.cast e.id)) [
    | inl q ↦ rw q refl
    | inr (k, q) ↦ elim (Bool-cases (is_marked k c.name s.processed)) [
      | inl old ↦ rw (q, old) (k, q, old)
      | inr new ↦ rw (q, new) (after k q)
    ]
  ]
    where
      fresh : ℕ → Store T
      fresh k = record s { processed = (k, c.name) ∷ s.processed; locks = [] }

      after : (k : ℕ) → c.cast e.id ≡ some k → Settles c e s (end_of s (h c e (fresh k)))
      after k q =
          settles c e s k (h c e (fresh k)) q
            (rw (keeps (fresh k)) (is_marked_self k c.name s.processed))

  -- An event that was processed is not processed again: delivered once more, to the same service, it
  -- succeeds and changes nothing, whatever the handler would do.
  pub process_again :
      (h' : Handler T) (c' : Context) (s : Store T) {s' : Store T}
      → c'.name ≡ c.name
      → c'.cast e.id ≡ c.cast e.id
      → process c h e s ≡ (ok tt, s')
      → process c' h' e s' ≡ (ok tt, s')
  unfolding process mark transaction
  process_again h' c' s {s'} name cast_id done =
      let (k, q, m) = subst (Settles c e s) done (process-Settles s) in
      rw (cast_id ∙ q, subst (λ n. is_marked k n s'.processed ≡ true) (sym name) m) refl
