-- ===== src/Placement/Jobs/Laws.antt =====
-- The status of a placement job under the events that the service handles.
use logicore_wms.Base.{
  String, ℕ, true, some, List, ◌≡◌, ◌==◌, refl, sym, ap, ◌∙◌, subst, arith, Option-cases,
  Bool-cases, ==_iff, inl, inr,
}
use logicore_wms.Base.Rows.{find_row, Updated, update_row-Updated, update_row-absent, some_inj}
use logicore_wms.Platform.Types.{Context, ok}
use logicore_wms.Platform.Json.{Payload, string_at}
use logicore_wms.Platform.Tx.{
  Store, Event, EventType, goods_received, placement_rejected, stock_added,
}
use logicore_wms.Platform.Tx.Steps.{or_throw-then, execute-end, pure-tables}
use logicore_wms.Placement.Scoring.{Floats}
use logicore_wms.Placement.Jobs.{
  Job, job_key, new_job, insert_job, set_job, is_placed, put_back, settle_placed, handle_type,
  handle,
}

module _ (fl : Floats) where
  -- Lot `k` has a job, which is done.
  abbrev pub IsDone : ℕ → List (Job fl) → Type 0
  IsDone k jobs =
      (j : Job fl) × (find_row (job_key fl) k jobs ≡ some j) × (is_placed fl j.status ≡ true)

  -- An update that keeps a done job done, of whichever row.
  set_job-IsDone :
      (k n : ℕ) (f : Job fl → Job fl) (jobs : List (Job fl)) {jobs' : List (Job fl)}
      → ((j : Job fl) → (f j).stock_id ≡ j.stock_id)
      → ((j : Job fl) → is_placed fl j.status ≡ true → is_placed fl (f j).status ≡ true)
      → set_job fl n f jobs ≡ some jobs'
      → IsDone k jobs
      → IsDone k jobs'
  set_job-IsDone k n f jobs {jobs'} keeps stays h (j, found, done) =
      elim (Option-cases (find_row (job_key fl) n jobs)) [
        | inl absent ↦
            subst (IsDone k)
              (some_inj (sym (update_row-absent (job_key fl) n (λ j. some (f j)) jobs absent) ∙ h))
              (j, found, done)
        | inr (x, e) ↦
            let (y, ey, u) =
              update_row-Updated (job_key fl) n (λ j. some (f j)) jobs
                (λ y q. ap (λ (j : Job fl). j.stock_id) (sym (some_inj q)) ∙ keeps x) e h in
            changed x y (some_inj ey) u
      ]
    where
      changed : (x y : Job fl) → f x ≡ y → Updated (job_key fl) n jobs jobs' x y → IsDone k jobs'
      changed x y ey u = elim (Bool-cases (n == k)) [
        | inl here ↦
            let eq_key : n ≡ k = (==_iff n k).0 here in
            let same : j ≡ x =
              some_inj
                (sym found ∙ subst (λ i. find_row (job_key fl) i jobs ≡ some x) eq_key u.found) in
            (
              y,
              u.finds k ∙ rw here refl,
              subst (λ y. is_placed fl y.status ≡ true) ey
                  (stays x (subst (λ x. is_placed fl x.status ≡ true) same done)),
            )
        | inr there ↦ (j, u.finds k ∙ rw there found, done)
      ]

  insert_job-IsDone :
      (k : ℕ) (x : Job fl) (jobs : List (Job fl)) {jobs' : List (Job fl)}
      → insert_job fl x jobs ≡ some jobs'
      → IsDone k jobs
      → IsDone k jobs'
  unfolding insert_job find_row
  insert_job-IsDone k x jobs {jobs'} h (j, found, done) = (j, ground (arith, h, found), done)

  pub put_back-keeps :
      (c : Context) (reason : String) (j : Job fl) → (put_back fl c reason j).stock_id ≡ j.stock_id
  put_back-keeps c reason j = ground arith

  put_back-stays :
      (c : Context) (reason : String) (j : Job fl)
      → is_placed fl j.status ≡ true
      → is_placed fl (put_back fl c reason j).status ≡ true
  put_back-stays c reason j h = rw h h

  handle_type-IsDone :
      (c : Context) (kind : EventType) (v : Payload) (k : ℕ) (s : Store (List (Job fl)))
      {s' : Store (List (Job fl))}
      → handle_type fl c kind v s ≡ (ok tt, s')
      → IsDone k s.tables
      → IsDone k s'.tables
  handle_type-IsDone c goods_received v k s h done =
      or_throw-then s (c.cast (string_at v "stockId")) _ _ h λ stock _ h.
        or_throw-then s (c.cast (string_at v "warehouseId")) _ _ h λ warehouse _ h.
          let (t, e, stay) = execute-end s (insert_job fl (new_job fl c stock warehouse v)) h in
          subst (IsDone k) (sym stay)
            (insert_job-IsDone k (new_job fl c stock warehouse v) s.tables e done)
  handle_type-IsDone c placement_rejected v k s h done =
      or_throw-then s (c.cast (string_at v "stockId")) _ _ h λ stock _ h.
        let f = put_back fl c (string_at v "reason") in
        let (t, e, stay) = execute-end s (set_job fl stock f) h in
        subst (IsDone k) (sym stay) (
          set_job-IsDone k stock f s.tables (put_back-keeps c (string_at v "reason"))
            (put_back-stays c (string_at v "reason")) e done)
  handle_type-IsDone c stock_added v k s h done =
      or_throw-then s (c.cast (string_at v "stockId")) _ _ h λ stock _ h.
        let (t, e, stay) = execute-end s (set_job fl stock (settle_placed fl c)) h in
        subst (IsDone k) (sym stay)
          (set_job-IsDone k stock (settle_placed fl c) s.tables (λ j. refl) (λ j _. refl) e done)
  handle_type-IsDone c _ v k s h done =
      subst (λ (s : Store (List (Job fl))). IsDone k s.tables) (sym (pure-tables s tt h)) done

  -- Once a lot's job is done it stays done, whatever event is handled: neither a late rejection nor
  -- a repeated arrival of the goods takes it up again.
  pub handle-IsDone :
      (c : Context) (e : Event) (k : ℕ) (s : Store (List (Job fl))) {s' : Store (List (Job fl))}
      → handle fl c e s ≡ (ok tt, s')
      → IsDone k s.tables
      → IsDone k s'.tables
  unfolding handle
  handle-IsDone c e k s h done = handle_type-IsDone c e.type e.payload k s h done
