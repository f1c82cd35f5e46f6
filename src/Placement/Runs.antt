-- ===== src/Placement/Runs.antt =====
-- The placement service as its events come in and its worker ticks.
use logicore_wms.Base.{
  ℕ, true, some, List, [], ◌∷◌, ◌≡◌, ◌==◌, refl, sym, ◌∙◌, subst, arith, Option-cases, Bool-cases,
  ==_iff, ◌⊎◌, inl, inr, ◌&&◌, leb,
}
use logicore_wms.Base.Rows.{find_row, some_inj}
use logicore_wms.Platform.Types.{Context, Result, ok, err}
use logicore_wms.Platform.Json.{Payload, string_at}
use logicore_wms.Platform.Tx.{
  Store, Event, EventType, goods_received, placement_rejected, stock_added, transaction-err,
}
use logicore_wms.Platform.Tx.Steps.{or_throw-then, execute-end, pure-tables}
use logicore_wms.Platform.Inbox.{process}
use logicore_wms.Platform.Moves.{Moves, Moves-process}
use logicore_wms.Placement.Scoring.{Floats}
use logicore_wms.Placement.Jobs.{
  Job, job_key, set_job, JobStatus, pending, assigned, placed, cancelled, is_pending, is_placed,
  next_due, Outside, new_job, insert_job, put_back, settle_placed, handle_type, handle, assign,
}
use logicore_wms.Placement.Jobs.Keyed.{IsKeyed, set_job-IsKeyed, insert_job-IsKeyed}
use logicore_wms.Placement.Jobs.Laws.{IsDone, handle-IsDone, put_back-keeps}
use logicore_wms.Placement.Jobs.Assign.{Dealt, Given, Closed, Worked, next_due-found}
use logicore_wms.Placement.Jobs.Assign.Outcome.{assign-outcome}

module _ (fl : Floats) where
  -- What the service does to its database: an event of the topic, or a tick of its worker. Each may
  -- have a clock of its own, and other answers from the other services.
  pub data Step : Store (List (Job fl)) → Store (List (Job fl)) → Type 0 where
    consumed :
        (c : Context) (e : Event) (s : Store (List (Job fl))) → Step s (process c (handle fl) e s).1
    ticked :
        (c : Context) (out : Outside fl) (s : Store (List (Job fl))) → Step s (assign fl c out s).1

  -- The states that any number of steps lead to.
  pub data Run : Store (List (Job fl)) → Store (List (Job fl)) → Type 0 where
    rest : (s : Store (List (Job fl))) → Run s s
    step : {s s1 s2 : Store (List (Job fl))} → Run s s1 → Step s1 s2 → Run s s2

  -- Jobs keep to one for each lot, and what is done stays done.
  abbrev pub Lasts : List (Job fl) → List (Job fl) → Type 0
  Lasts jobs jobs' =
      IsKeyed fl jobs → IsKeyed fl jobs' × ((k : ℕ) → IsDone fl k jobs → IsDone fl k jobs')

  Lasts-stay : (jobs : List (Job fl)) → Lasts jobs jobs
  Lasts-stay jobs keyed = (keyed, λ k done. done)

  handle_type-IsKeyed :
      (c : Context) (kind : EventType) (v : Payload) (s : Store (List (Job fl)))
      {s' : Store (List (Job fl))}
      → handle_type fl c kind v s ≡ (ok tt, s')
      → IsKeyed fl s.tables
      → IsKeyed fl s'.tables
  handle_type-IsKeyed c goods_received v s h keyed =
      or_throw-then s (c.cast (string_at v "stockId")) _ _ h λ stock _ h.
        or_throw-then s (c.cast (string_at v "warehouseId")) _ _ h λ warehouse _ h.
          let (t, e, stay) = execute-end s (insert_job fl (new_job fl c stock warehouse v)) h in
          subst (IsKeyed fl) (sym stay)
            (insert_job-IsKeyed fl (new_job fl c stock warehouse v) s.tables e keyed)
  handle_type-IsKeyed c placement_rejected v s h keyed =
      or_throw-then s (c.cast (string_at v "stockId")) _ _ h λ stock _ h.
        let f = put_back fl c (string_at v "reason") in
        let (t, e, stay) = execute-end s (set_job fl stock f) h in
        subst (IsKeyed fl) (sym stay)
          (set_job-IsKeyed fl stock f (put_back-keeps fl c (string_at v "reason")) s.tables e keyed)
  handle_type-IsKeyed c stock_added v s h keyed =
      or_throw-then s (c.cast (string_at v "stockId")) _ _ h λ stock _ h.
        let (t, e, stay) = execute-end s (set_job fl stock (settle_placed fl c)) h in
        subst (IsKeyed fl) (sym stay)
          (set_job-IsKeyed fl stock (settle_placed fl c) (λ j. refl) s.tables e keyed)
  handle_type-IsKeyed c _ v s h keyed =
      subst (λ (s : Store (List (Job fl))). IsKeyed fl s.tables) (sym (pure-tables s tt h)) keyed

  handle-Moves : (c : Context) (e : Event) → Moves Lasts (handle fl c e)
  unfolding handle
  handle-Moves c e = record {
    apply = λ s _ s' h keyed. (
      handle_type-IsKeyed c e.type e.payload s h keyed,
      λ k done. handle-IsDone fl c e k s h done,
    );
  }

  next_due-pending :
      (now : ℕ) (jobs : List (Job fl)) {j : Job fl}
      → next_due fl now jobs ≡ some j
      → is_pending fl j.status ≡ true
  unfolding next_due
  next_due-pending now [] h = cc
  next_due-pending now (x ∷ jobs) h =
      elim (Bool-cases (is_pending fl x.status && leb x.next_attempt now)) [
        | inr later ↦ next_due-pending now jobs (rw later at h)
        | inl here ↦ elim (Option-cases (next_due fl now jobs)) [
          | inl alone ↦ ground (arith, h, here, alone)
          | inr (k, e) ↦ ground (arith, h, here, e, next_due-pending now jobs e)
        ]
      ]

  apart : (s : JobStatus) → is_pending fl s ≡ true → is_placed fl s ≡ true → ⊥
  apart pending e h = cc
  apart assigned e h = cc
  apart placed e h = cc
  apart cancelled e h = cc

  Dealt-Lasts :
      (j : Job fl) (f : Job fl → Job fl) (jobs jobs' : List (Job fl))
      → find_row (job_key fl) j.stock_id jobs ≡ some j
      → is_pending fl j.status ≡ true
      → Dealt fl j f jobs jobs'
      → Lasts jobs jobs'
  Dealt-Lasts j f jobs jobs' found waits d keyed = (d.keyed keyed, stays)
    where
      stays : (k : ℕ) → IsDone fl k jobs → IsDone fl k jobs'
      stays k (x, at, done) = elim (Bool-cases (j.stock_id == k)) [
        | inr other ↦ (x, d.others k other ∙ at, done)
        | inl same ↦
            let here =
              subst (λ i. find_row (job_key fl) i jobs ≡ some j) ((==_iff j.stock_id k).0 same)
                found in
            let e : x ≡ j = some_inj (sym at ∙ here) in
            absurd
              (apart j.status waits (subst (λ (x : Job fl). is_placed fl x.status ≡ true) e done))
      ]

  Worked-Lasts :
      (c : Context) (out : Outside fl) (s s' : Store (List (Job fl)))
      → Worked fl c out s s'
      → Lasts s.tables s'.tables
  Worked-Lasts c out s s' w keyed = go w.outcome
    where
      dealt : (f : Job fl → Job fl) → Dealt fl w.job f s.tables s'.tables → Lasts s.tables s'.tables
      dealt f =
          Dealt-Lasts w.job f s.tables s'.tables (next_due-found fl c.db_now s.tables keyed w.due)
            (next_due-pending c.db_now s.tables w.due)

      go :
          Given fl c out w.job s s' ⊎ Closed fl c w.job s s'
          → IsKeyed fl s'.tables × ((k : ℕ) → IsDone fl k s.tables → IsDone fl k s'.tables)
      go (inl g) = dealt _ g.dealt keyed
      go (inr q) = elim q.dealt [
        | inl d ↦ dealt _ d keyed
        | inr (inl d) ↦ dealt _ d keyed
        | inr (inr d) ↦ dealt _ d keyed
      ]

  assign-Lasts :
      (c : Context) (out : Outside fl) (s : Store (List (Job fl)))
      → Lasts s.tables (assign fl c out s).1.tables
  unfolding assign
  assign-Lasts c out s keyed = go (assign fl c out s) refl
    where
      go :
          (r : Result (Unit {0}) × Store (List (Job fl)))
          → assign fl c out s ≡ r
          → IsKeyed fl r.1.tables × ((k : ℕ) → IsDone fl k s.tables → IsDone fl k r.1.tables)
      go (err x, s') e =
          subst (λ (s' : Store (List (Job fl))). Lasts s.tables s'.tables)
            (sym (transaction-err _ s e)) (Lasts-stay s.tables) keyed
      go (ok tt, s') e = elim (assign-outcome fl c out s keyed e) [
        | inl same ↦
            subst (λ (s' : Store (List (Job fl))). Lasts s.tables s'.tables) (sym same)
              (Lasts-stay s.tables) keyed
        | inr w ↦ Worked-Lasts c out s s' w keyed
      ]

  Step-Lasts : {s s' : Store (List (Job fl))} → Step s s' → Lasts s.tables s'.tables
  Step-Lasts (consumed c e s) = Moves-process Lasts Lasts-stay (handle fl) c e (handle-Moves c e) s
  Step-Lasts (ticked c out s) = assign-Lasts c out s

  Run-Lasts :
      {s s' : Store (List (Job fl))}
      → Run s s'
      → IsKeyed fl s.tables
      → IsKeyed fl s'.tables × ((k : ℕ) → IsDone fl k s.tables → IsDone fl k s'.tables)
  Run-Lasts (rest s) keyed = Lasts-stay s.tables keyed
  Run-Lasts (step run more) keyed =
      let (keyed1, stay1) = Run-Lasts run keyed in
      let (keyed2, stay2) = Step-Lasts more keyed1 in (keyed2, λ k done. stay2 k (stay1 k done))

  -- The primary key of the table of jobs holds over any run.
  Run-IsKeyed :
      {s s' : Store (List (Job fl))} → Run s s' → IsKeyed fl s.tables → IsKeyed fl s'.tables
  Run-IsKeyed run keyed = (Run-Lasts run keyed).0

  -- Once the job of a lot is done it stays done, whatever events and ticks of its worker the placement
  -- service works off, in any order and whether or not they fail. No two jobs are for the same lot.
  pub Run-IsDone :
      {s s' : Store (List (Job fl))} (k : ℕ)
      → Run s s'
      → IsKeyed fl s.tables
      → IsDone fl k s.tables
      → IsDone fl k s'.tables
  Run-IsDone k run keyed = (Run-Lasts run keyed).1 k
