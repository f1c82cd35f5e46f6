-- ===== src/Placement/Jobs/Keyed.antt =====
-- The primary key of `placement_jobs` under its statements.
use logicore_wms.Base.{
  ℕ, none, some, List, [], ◌∷◌, ◌≡◌, ◌==◌, sym, ap, ◌∙◌, subst, arith, Option-cases, Bool-cases,
  ==_iff, inl, inr,
}
use logicore_wms.Base.Rows.{
  find_row, update_row, update_row-Updated, update_row-absent, update_row-some, some_inj,
}
use logicore_wms.Placement.Scoring.{Floats}
use logicore_wms.Placement.Jobs.{Job, job_key, set_job, insert_job}

module _ (fl : Floats) where
  -- No two jobs are for the same lot.
  abbrev pub IsKeyed : List (Job fl) → Type 0
  IsKeyed [] = Unit
  IsKeyed (j ∷ jobs) = (find_row (job_key fl) j.stock_id jobs ≡ none) × IsKeyed jobs

  module _ (k : ℕ) (f : Job fl → Job fl) (keeps : (j : Job fl) → (f j).stock_id ≡ j.stock_id) where
    set_job-absent :
        (n : ℕ) (jobs : List (Job fl)) {jobs' : List (Job fl)}
        → set_job fl k f jobs ≡ some jobs'
        → find_row (job_key fl) n jobs ≡ none
        → find_row (job_key fl) n jobs' ≡ none
    set_job-absent n jobs {jobs'} h new = elim (Option-cases (find_row (job_key fl) k jobs)) [
      | inl absent ↦
          subst (λ l. find_row (job_key fl) n l ≡ none)
            (some_inj (sym (update_row-absent (job_key fl) k (λ j. some (f j)) jobs absent) ∙ h))
            new
      | inr (x, e) ↦
          let (y, ey, u) =
            update_row-Updated (job_key fl) k (λ x. some (f x)) jobs
              (λ y q. ap (λ (j : Job fl). j.stock_id) (sym (some_inj q)) ∙ keeps x) e h in
          elim (Bool-cases (k == n)) [
            | inl same ↦ absurd (
                ground (
                  arith,
                  e,
                  subst (λ i. find_row (job_key fl) i jobs ≡ none) (sym ((==_iff k n).0 same)) new,
                ))
            | inr other ↦ u.finds n ∙ rw other new
          ]
    ]

    pub set_job-IsKeyed :
        (jobs : List (Job fl)) {jobs' : List (Job fl)}
        → set_job fl k f jobs ≡ some jobs'
        → IsKeyed jobs
        → IsKeyed jobs'
    unfolding update_row
    set_job-IsKeyed [] h keyed = subst IsKeyed (some_inj h) tt
    set_job-IsKeyed (z ∷ jobs) h (new, keyed) = elim (Bool-cases (z.stock_id == k)) [
      | inl here ↦
          subst IsKeyed (some_inj (rw here at h))
            (subst (λ i. find_row (job_key fl) i jobs ≡ none) (sym (keeps z)) new, keyed)
      | inr there ↦
          let (m, e) = update_row-some (job_key fl) k f jobs in
          subst IsKeyed (some_inj (rw (there, e) at h))
            (set_job-absent z.stock_id jobs e new, set_job-IsKeyed jobs e keyed)
    ]

  pub insert_job-IsKeyed :
      (j : Job fl) (jobs : List (Job fl)) {jobs' : List (Job fl)}
      → insert_job fl j jobs ≡ some jobs'
      → IsKeyed jobs
      → IsKeyed jobs'
  unfolding insert_job
  insert_job-IsKeyed j jobs h keyed = elim (Option-cases (find_row (job_key fl) j.stock_id jobs)) [
    | inl new ↦ subst IsKeyed (some_inj (rw new at h)) (new, keyed)
    | inr (x, e) ↦ subst IsKeyed (some_inj (rw e at h)) keyed
  ]
