-- ===== src/Placement/Jobs/Assign/Outcome.antt =====
-- The steps of `assign`, one after another.
use logicore_wms.Base.{
  String, ℕ, not, Option, none, some, List, [], ◌≡◌, refl, sym, ap, ◌∙◌, subst, ◌⊎◌, inl, inr,
}
use logicore_wms.Base.Rows.{find_row}
use logicore_wms.Platform.Types.{Context, Result, ok}
use logicore_wms.Platform.Json.{Payload, float, get, put, number_at}
use logicore_wms.Platform.Tx.{Store, pure, execute, continue, ◌>>◌, transaction-ok, emit}
use logicore_wms.Platform.Tx.Steps.{lift-then, or_throw-then, execute-then, if-then, pure-tables}
use logicore_wms.Placement.Scoring.{Floats, Candidate, choose, nothing_found}
use logicore_wms.Placement.Jobs.{
  Job, job_key, set_job, settle_placed, next_due, Outside, scores_of, give_up, put_off, give_place,
  conclude, is_null, is_zero, assign_lot, assign_job, assign,
}
use logicore_wms.Placement.Jobs.Keyed.{IsKeyed}
use logicore_wms.Placement.Jobs.Assign.{Dealt, Given, Closed, Worked, next_due-found, set_job-Dealt}

module _ (fl : Floats) where
  -- The statement that deals with the job, as the last step.
  closed :
      (j : Job fl) (f : Job fl → Job fl) (s : Store (List (Job fl))) {s' : Store (List (Job fl))}
      → ((x : Job fl) → (f x).stock_id ≡ x.stock_id)
      → find_row (job_key fl) j.stock_id s.tables ≡ some j
      → execute (set_job fl j.stock_id f) s ≡ (ok tt, s')
      → (s'.outbox ≡ s.outbox) × Dealt fl j f s.tables s'.tables
  closed j f s {s'} keeps found h =
      execute-then s (set_job fl j.stock_id f) (pure tt) (ended h) λ t e h.
        let end = pure-tables (record s { tables = t }) tt h in
        (
          ap (λ (s : Store (List (Job fl))). s.outbox) end,
          subst (λ (s' : Store (List (Job fl))). Dealt fl j f s.tables s'.tables) (sym end)
              (set_job-Dealt fl j f s.tables keeps found e),
        )
    where
      ended :
          execute (set_job fl j.stock_id f) s ≡ (ok tt, s')
          → (execute (set_job fl j.stock_id f) >> pure tt) s ≡ (ok tt, s')
      ended h = ap (λ r. continue r (λ _. pure tt)) h

  module _ (c : Context) (out : Outside fl) (j : Job fl) where
    conclude-outcome :
        (payload : Payload) (locations : List (Candidate fl)) (r : fl.F × Option (Candidate fl))
        (s : Store (List (Job fl))) {s' : Store (List (Job fl))}
        → out.locations (c.text j.warehouse_id) ≡ ok locations
        → choose fl (scores_of fl c j payload) locations (nothing_found fl) ≡ r
        → find_row (job_key fl) j.stock_id s.tables ≡ some j
        → conclude fl c j payload r s ≡ (ok tt, s')
        → Given fl c out j s s' ⊎ Closed fl c j s s'
    unfolding emit
    conclude-outcome payload locations (best, none) s lists chooses found h =
        let (quiet, dealt) = closed j (put_off fl c) s (λ x. refl) found h in
        inr (record { quiet = quiet; dealt = inr (inr dealt) })
    conclude-outcome payload locations (best, some chosen) s {s'} lists chooses found h =
        or_throw-then s (c.cast chosen.id) _ _ h λ location reads h.
          execute-then s (set_job fl j.stock_id (give_place fl c location best)) _ h λ t e h.
            inl (record {
              payload = payload;
              locations = locations;
              best = best;
              chosen = chosen;
              location = location;
              lists = lists;
              chooses = chooses;
              reads = reads;
              dealt =
                  subst (λ t. Dealt fl j (give_place fl c location best) s.tables t)
                    (ap (λ (r : Result (Unit {0}) × Store (List (Job fl))). r.1.tables) h)
                    (set_job-Dealt fl j (give_place fl c location best) s.tables (λ x. refl) found
                      e);
              tells = sym (ap (λ (r : Result (Unit {0}) × Store (List (Job fl))). r.1.outbox) h);
            })

    assign_lot-outcome :
        (lot : Payload) (s : Store (List (Job fl))) {s' : Store (List (Job fl))}
        → find_row (job_key fl) j.stock_id s.tables ≡ some j
        → assign_lot fl c out j lot s ≡ (ok tt, s')
        → Given fl c out j s s' ⊎ Closed fl c j s s'
    unfolding assign_lot
    assign_lot-outcome lot s found h =
        if-then s (is_zero fl (number_at lot "quantity"))
          (execute (set_job fl j.stock_id (give_up fl c))) _ h
          (λ _ h.
            let (quiet, dealt) = closed j (give_up fl c) s (λ x. refl) found h in
            inr (record { quiet = quiet; dealt = inl dealt }))
          (λ _ h.
            if-then s (not (is_null fl (get "locationId" lot)))
              (execute (set_job fl j.stock_id (settle_placed fl c))) _ h
              (λ _ h.
                let (quiet, dealt) = closed j (settle_placed fl c) s (λ x. refl) found h in
                inr (record { quiet = quiet; dealt = inr (inl dealt) }))
              (λ _ h. lift-then s (out.locations (c.text j.warehouse_id)) _ h λ locations lists h.
                conclude-outcome (put "quantity" (float (number_at lot "quantity")) j.payload)
                  locations _ s lists refl found h))

  assign_job-outcome :
      (c : Context) (out : Outside fl) (o : Option (Job fl)) (s : Store (List (Job fl)))
      {s' : Store (List (Job fl))}
      → IsKeyed fl s.tables
      → next_due fl c.db_now s.tables ≡ o
      → assign_job fl c out o s ≡ (ok tt, s')
      → (s' ≡ s) ⊎ Worked fl c out s s'
  assign_job-outcome c out none s keyed due h = inl (pure-tables s tt h)
  assign_job-outcome c out (some j) s keyed due h =
      lift-then s (out.acquire (c.text j.warehouse_id)) _ h λ free _ h.
        if-then s (not free) (pure tt) _ h (λ _ h. inl (pure-tables s tt h))
          (λ _ h. lift-then s (out.lot (c.text j.stock_id)) _ h λ lot _ h. inr (record {
            job = j;
            due = due;
            outcome =
                assign_lot-outcome c out j lot s (next_due-found fl c.db_now s.tables keyed due) h;
          }))

  -- The locks of the stores do not matter.
  outcome-locks :
      (c : Context) (out : Outside fl) (j : Job fl) (s s1 : Store (List (Job fl)))
      (l l' : List (ℕ × String))
      → Given fl c out j (record s { locks = l }) s1 ⊎ Closed fl c j (record s { locks = l }) s1
      → Given fl c out j s (record s1 { locks = l' }) ⊎ Closed fl c j s (record s1 { locks = l' })
  outcome-locks c out j s s1 l l' (inl g) = inl (record {
    payload = g.payload;
    locations = g.locations;
    best = g.best;
    chosen = g.chosen;
    location = g.location;
    lists = g.lists;
    chooses = g.chooses;
    reads = g.reads;
    dealt = g.dealt;
    tells = g.tells;
  })
  outcome-locks c out j s s1 l l' (inr q) = inr (record { quiet = q.quiet; dealt = q.dealt })

  pub assign-outcome :
      (c : Context) (out : Outside fl) (s : Store (List (Job fl))) {s' : Store (List (Job fl))}
      → IsKeyed fl s.tables
      → assign fl c out s ≡ (ok tt, s')
      → (s' ≡ s) ⊎ Worked fl c out s s'
  unfolding assign
  assign-outcome c out s keyed h =
      let (s1, e1, q) = transaction-ok _ s h in
      go s1 q (
        assign_job-outcome c out (next_due fl c.db_now s.tables) (record s { locks = [] }) keyed
          refl e1)
    where
      go :
          (s1 : Store (List (Job fl))) {s' : Store (List (Job fl))}
          → s' ≡ record s1 { locks = s.locks }
          → (s1 ≡ record s { locks = [] }) ⊎ Worked fl c out (record s { locks = [] }) s1
          → (s' ≡ s) ⊎ Worked fl c out s s'
      go s1 q (inl e) =
          inl (q ∙ ap (λ (s1 : Store (List (Job fl))). record s1 { locks = s.locks }) e)
      go s1 {s'} q (inr w) = inr (
          subst (Worked fl c out s) (sym q) (record {
            job = w.job;
            due = w.due;
            outcome = outcome-locks c out w.job s s1 [] s.locks w.outcome;
          }))
