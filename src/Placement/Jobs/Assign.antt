-- ===== src/Placement/Jobs/Assign.antt =====
-- What a tick of `assign` does: it deals with one job that is due, or with none.
pub mod Outcome
use logicore_wms.Base.{
  String, ℕ, Bool, true, false, not, Option, none, some, List, [], ◌∷◌, ◌++◌, ◌≡◌, ◌==◌, refl, sym,
  ap, ◌∙◌, subst, arith, length, eq_refl, Option-cases, Bool-cases, ==_iff, ◌⊎◌, inl, inr, leb,
  ◌&&◌, if◌then◌else◌,
}
use logicore_wms.Base.Rows.{find_row, Updated, update_row-Updated, some_inj}
use logicore_wms.Platform.Types.{Context, Result, ok}
use logicore_wms.Platform.Json.{Payload, text, float, get, put, string_at, number_at}
use logicore_wms.Platform.Tx.{
  Store, Tx, pure, execute, continue, ◌>>◌, product_placement_assigned, pending_of, transaction-ok,
  emit,
}
use logicore_wms.Platform.Tx.Steps.{lift-then, or_throw-then, execute-then, if-then, pure-tables}
use logicore_wms.Placement.Scoring.{Floats, Candidate, choose, nothing_found}
use logicore_wms.Placement.Jobs.Keyed.{IsKeyed, set_job-IsKeyed}
use logicore_wms.Placement.Jobs.{
  Job, job_key, set_job, settle_placed, next_due, Outside, is_pending, scores_of, give_up, put_off,
  give_place, conclude, is_null, is_zero, assign_lot, assign_job, assign,
}

module _ (fl : Floats) where
  -- The job has become `f` of it, the other jobs are as they were, and none is for the same lot as
  -- another if none was.
  pub record Dealt (j : Job fl) (f : Job fl → Job fl) (jobs jobs' : List (Job fl)) : Type 0 where
    pub found : find_row (job_key fl) j.stock_id jobs' ≡ some (f j)
    pub others :
        (k : ℕ)
        → (j.stock_id == k) ≡ false
        → find_row (job_key fl) k jobs' ≡ find_row (job_key fl) k jobs
    pub keyed : IsKeyed fl jobs → IsKeyed fl jobs'

  -- The job has been given a location, the best of those that the warehouse service lists, and the
  -- event that says so has been added to the outbox.
  pub record Given (c : Context) (out : Outside fl) (j : Job fl) (s s' : Store (List (Job fl)))
      : Type 0 where
    pub payload : Payload
    pub locations : List (Candidate fl)
    pub best : fl.F
    pub chosen : Candidate fl
    pub location : ℕ
    pub lists : out.locations (c.text j.warehouse_id) ≡ ok locations
    pub chooses :
        choose fl (scores_of fl c j payload) locations (nothing_found fl) ≡ (best, some chosen)
    pub reads : c.cast chosen.id ≡ some location
    pub dealt : Dealt j (give_place fl c location best) s.tables s'.tables
    pub tells :
        s'.outbox
        ≡ s.outbox
          ++ (pending_of c
                (length s.outbox)
                product_placement_assigned
                (put "score" (float (fl.units best)) (put "locationId" (text chosen.id) payload))
              ∷ [])

  -- The job is closed or put off without an event.
  pub record Closed (c : Context) (j : Job fl) (s s' : Store (List (Job fl))) : Type 0 where
    pub quiet : s'.outbox ≡ s.outbox
    pub dealt :
        Dealt j (give_up fl c) s.tables s'.tables
        ⊎ (Dealt j (settle_placed fl c) s.tables s'.tables
            ⊎ Dealt j (put_off fl c) s.tables s'.tables)

  -- The job that is due first has been given a location, or is closed or put off.
  pub record Worked (c : Context) (out : Outside fl) (s s' : Store (List (Job fl))) : Type 0 where
    pub job : Job fl
    pub due : next_due fl c.db_now s.tables ≡ some job
    pub outcome : Given c out job s s' ⊎ Closed c job s s'

  next_due-cases :
      (now : ℕ) (x : Job fl) (jobs : List (Job fl)) {j : Job fl}
      → next_due fl now (x ∷ jobs) ≡ some j
      → (x ≡ j) ⊎ (next_due fl now jobs ≡ some j)
  unfolding next_due
  next_due-cases now x jobs {j} h = elim (Option-cases (next_due fl now jobs)) [
    | inl none_left ↦ inl (ground (arith, none_left, h))
    | inr (k, e) ↦ elim (Bool-cases (leb x.next_attempt k.next_attempt)) [
      | inl first ↦ go (is_pending fl x.status && leb x.next_attempt now) k e (rw (e, first) at h)
      | inr later ↦ inr (ground (arith, e, later, h))
    ]
  ]
    where
      go :
          (b : Bool) (k : Job fl)
          → next_due fl now jobs ≡ some k
          → (if b then some x else some k) ≡ some j
          → (x ≡ j) ⊎ (next_due fl now jobs ≡ some j)
      go true k e q = inl (some_inj q)
      go false k e q = inr (e ∙ q)

  -- The row of a job that is due is found by its lot.
  pub next_due-found :
      (now : ℕ) (jobs : List (Job fl)) {j : Job fl}
      → IsKeyed fl jobs
      → next_due fl now jobs ≡ some j
      → find_row (job_key fl) j.stock_id jobs ≡ some j
  unfolding next_due find_row
  next_due-found now [] keyed h = cc
  next_due-found now (x ∷ jobs) {j} (new, keyed) h = elim (next_due-cases now x jobs h) [
    | inl here ↦
        subst (λ j. find_row (job_key fl) j.stock_id (x ∷ jobs) ≡ some j) here (ground arith)
    | inr there ↦
        let found = next_due-found now jobs keyed there in
        elim (Bool-cases (x.stock_id == j.stock_id)) [
          | inl same ↦ absurd (clash ((==_iff x.stock_id j.stock_id).0 same) found)
          | inr other ↦ rw other found
        ]
  ]
    where
      clash : (x.stock_id ≡ j.stock_id) → find_row (job_key fl) j.stock_id jobs ≡ some j → ⊥
      clash e found =
          let absent = subst (λ k. find_row (job_key fl) k jobs ≡ none) e new in
          ground (arith, absent, found)

  pub set_job-Dealt :
      (j : Job fl) (f : Job fl → Job fl) (jobs : List (Job fl)) {jobs' : List (Job fl)}
      → ((x : Job fl) → (f x).stock_id ≡ x.stock_id)
      → find_row (job_key fl) j.stock_id jobs ≡ some j
      → set_job fl j.stock_id f jobs ≡ some jobs'
      → Dealt j f jobs jobs'
  set_job-Dealt j f jobs {jobs'} keeps found h =
      let (y, ey, u) =
        update_row-Updated (job_key fl) j.stock_id (λ x. some (f x)) jobs
          (λ y q. ap (λ (j : Job fl). j.stock_id) (sym (some_inj q)) ∙ keeps j) found h in
      record {
        found = ground (arith, u.finds j.stock_id, ey);
        others = λ k n. ground (arith, u.finds k, n);
        keyed = set_job-IsKeyed fl j.stock_id f keeps jobs h;
      }
