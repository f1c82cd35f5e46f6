-- ===== src/Platform/Inbox/Again.antt =====
-- Redelivery of an event at any later time, for a handler that leaves the inbox alone where it
-- succeeds.
use logicore_wms.Base.{
  ℕ, String, true, Option, none, some, List, [], ◌∷◌, ◌++◌, ◌==◌, ◌≡◌, refl, sym, ap, ◌∙◌, subst,
  arith, eq_refl, ◌⊎◌, inl, inr, Bool-cases, if◌then◌else◌,
}
use logicore_wms.Platform.Types.{Context, Result, ok, err}
use logicore_wms.Platform.Tx.{
  Store, Event, pure, ◌>>=◌, transaction, transaction-ok, transaction-err,
}
use logicore_wms.Platform.Tx.Steps.{bind-then, if-then, pure-tables}
use logicore_wms.Platform.Tx.Frame.{Frames}
use logicore_wms.Platform.Inbox.{Handler, is_marked, mark_row, mark, process}

-- A handler that leaves the inbox alone where it succeeds.
abbrev pub LeavesInbox : {T : Type 0} → Handler T → Type 0
LeavesInbox h = (c : Context) (e : Event) → Frames (λ s. s.processed) (h c e)

-- The calls of `Process` for deliveries of a topic, one after another.
unfoldable pub work_off : {T : Type 0} → Handler T → List (Context × Event) → Store T → Store T
work_off h [] s = s
work_off h ((c, e) ∷ l) s = work_off h l (process c h e s).1

-- What an event that was processed has left in the inbox.
abbrev Marked : Context → Option ℕ → List (ℕ × String) → List (ℕ × String) → Type 0
Marked c o rows rows' =
    (k : ℕ) × (o ≡ some k)
    × (((is_marked k c.name rows ≡ true) × (rows' ≡ rows)) ⊎ (rows' ≡ (k, c.name) ∷ rows))

is_marked_first :
    (k : ℕ) (name : String) (rows : List (ℕ × String)) → is_marked k name ((k, name) ∷ rows) ≡ true
is_marked_first k name rows = ground (arith, eq_refl name)

is_marked_later :
    (k : ℕ) (name : String) (row : ℕ × String) (rows : List (ℕ × String))
    → is_marked k name rows ≡ true
    → is_marked k name (row ∷ rows) ≡ true
is_marked_later k name row rows h = ground arith

-- The inbox has the event, and all that it had before.
Marked-self :
    (c : Context) {o : Option ℕ} {rows rows' : List (ℕ × String)}
    → Marked c o rows rows'
    → (k : ℕ) × (o ≡ some k) × (is_marked k c.name rows' ≡ true)
Marked-self c (k, e, inl (old, same)) =
    (k, e, subst (λ l. is_marked k c.name l ≡ true) (sym same) old)
Marked-self c {rows = rows} (k, e, inr new) =
    (k, e, subst (λ l. is_marked k c.name l ≡ true) (sym new) (is_marked_first k c.name rows))

Marked-others :
    (c : Context) {o : Option ℕ} {rows rows' : List (ℕ × String)} (k : ℕ) (name : String)
    → Marked c o rows rows'
    → is_marked k name rows ≡ true
    → is_marked k name rows' ≡ true
Marked-others c k name (j, e, inl (old, same)) h =
    subst (λ l. is_marked k name l ≡ true) (sym same) h
Marked-others c {rows = rows} k name (j, e, inr new) h =
    subst (λ l. is_marked k name l ≡ true) (sym new) (is_marked_later k name (j, c.name) rows h)

module _ {T : Type 0} where
  work_off-append :
      (h : Handler T) (l l' : List (Context × Event)) (s : Store T)
      → work_off h (l ++ l') s ≡ work_off h l' (work_off h l s)
  unfolding work_off
  work_off-append h [] l' s = refl
  work_off-append h ((c, e) ∷ l) l' s = work_off-append h l l' (process c h e s).1

  mark-Marked :
      (c : Context) (o : Option ℕ) (s : Store T) {n : ℕ} {s' : Store T}
      → mark_row c o s ≡ (ok n, s')
      → Marked c o s.processed s'.processed
  mark-Marked c none s h = absurd (cc)
  mark-Marked c (some k) s h = elim (Bool-cases (is_marked k c.name s.processed)) [
    | inl old ↦ (k, refl, inl (old, ground (arith, old)))
    | inr new ↦ (k, refl, inr (ground (arith, new)))
  ]

  module _ (h : Handler T) (leaves : LeavesInbox h) where
    body-Marked :
        (c : Context) (e : Event) (s : Store T) {a : Unit {0}} {s' : Store T}
        → (mark c e.id >>= λ affected. if affected == 0 then pure tt else h c e) s ≡ (ok a, s')
        → Marked c (c.cast e.id) s.processed s'.processed
    unfolding mark
    body-Marked c e s {a} {s'} run = bind-then s (mark c e.id) _ run λ n s1 h1 run.
        let m = mark-Marked c (c.cast e.id) s h1 in
        if-then s1 (n == 0) (pure tt) (h c e) run
          (λ _ run.
            subst (λ (s' : Store T). Marked c (c.cast e.id) s.processed s'.processed)
              (sym (pure-tables s1 tt run)) m)
          (λ _ run.
            subst (Marked c (c.cast e.id) s.processed) (sym ((leaves c e).apply s1 a s' run)) m)

    process-Marked :
        (c : Context) (e : Event) (s : Store T) {a : Unit {0}} {s' : Store T}
        → process c h e s ≡ (ok a, s')
        → Marked c (c.cast e.id) s.processed s'.processed
    unfolding process
    process-Marked c e s run =
        let (s1, run1, q) = transaction-ok _ s run in
        subst (λ (s' : Store T). Marked c (c.cast e.id) s.processed s'.processed) (sym q)
          (body-Marked c e (record s { locks = [] }) run1)

    -- No marker is ever taken back.
    process-others :
        (c : Context) (e : Event) (s : Store T) (k : ℕ) (name : String)
        → is_marked k name s.processed ≡ true
        → is_marked k name (process c h e s).1.processed ≡ true
    unfolding process
    process-others c e s k name old = go (process c h e s) refl
      where
        go :
            (r : Result (Unit {0}) × Store T)
            → process c h e s ≡ r
            → is_marked k name r.1.processed ≡ true
        go (ok a, s') run = Marked-others c k name (process-Marked c e s run) old
        go (err x, s') run =
            subst (λ (s : Store T). is_marked k name s.processed ≡ true)
              (sym (transaction-err _ s run)) old

    work_off-others :
        (l : List (Context × Event)) (s : Store T) (k : ℕ) (name : String)
        → is_marked k name s.processed ≡ true
        → is_marked k name (work_off h l s).processed ≡ true
    unfolding work_off
    work_off-others [] s k name old = old
    work_off-others ((c, e) ∷ l) s k name old =
        work_off-others l (process c h e s).1 k name (process-others c e s k name old)

    process_marked :
        (c : Context) (e : Event) (s : Store T) (k : ℕ)
        → c.cast e.id ≡ some k
        → is_marked k c.name s.processed ≡ true
        → process c h e s ≡ (ok tt, s)
    unfolding process mark transaction
    process_marked c e s k q m = rw (q, m) refl

    -- An event that was processed may come again at any later time: for what the service has after a
    -- log of deliveries it makes no difference.
    pub work_off_again :
        (c c' : Context) (e : Event) (s : Store T) {a : Unit {0}} {s1 : Store T}
        → process c h e s ≡ (ok a, s1)
        → c'.name ≡ c.name
        → c'.cast e.id ≡ c.cast e.id
        → (l l' : List (Context × Event))
        → work_off h (l ++ ((c', e) ∷ l')) s1 ≡ work_off h (l ++ l') s1
    unfolding work_off
    work_off_again c c' e s {s1 = s1} run name cast_id l l' =
        let (k, q, m) = Marked-self c (process-Marked c e s run) in
        let late : process c' h e (work_off h l s1) ≡ (ok tt, work_off h l s1) =
          process_marked c' e (work_off h l s1) k (cast_id ∙ q) (
            subst (λ n. is_marked k n (work_off h l s1).processed ≡ true) (sym name)
              (work_off-others l s1 k c.name m)) in
        work_off-append h l ((c', e) ∷ l') s1
        ∙ ap (λ (r : Result (Unit {0}) × Store T). work_off h l' r.1) late
        ∙ sym (work_off-append h l l' s1)
