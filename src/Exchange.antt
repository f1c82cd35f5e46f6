-- ===== src/Exchange.antt =====
-- What the services tell each other: the inventory service refuses a placement, and the placement
-- service hears of it.
pub mod Tests
use logicore_wms.Base.{
  ℕ, String, length, false, Option, some, none, List, [], ◌∷◌, ◌++◌, ◌<◌, ◌≡◌, ◌==◌, refl, sym, ap,
  ◌∙◌, subst, ◌⊎◌, inl, inr, arith, if◌then◌else◌,
}
use logicore_wms.Base.Rows.{find_row, update_row-some, update_row-Updated, some_inj}
use logicore_wms.Platform.Types.{Context, Fault, fault, internal, ok, err}
use logicore_wms.Platform.Json.{Payload, as_string, get, put, text, string_at}
use logicore_wms.Platform.Json.Put.{get-put, get-put-ne}
use logicore_wms.Platform.Tx.{
  Store, Event, Pending, ◌>>=◌, execute, or_throw, placement_rejected, event_of, pending_of,
}
use logicore_wms.Inventory.Tables.{Tables}
use logicore_wms.Inventory.Capacity.{Catalog}
use logicore_wms.Inventory.Service.{placing, command_of, perform}
use logicore_wms.Inventory.Service.Rejection.{locked, Rejected, handle-Rejected}
use logicore_wms.Inventory.Service
use logicore_wms.Placement.Jobs
use logicore_wms.Placement.Scoring.{Floats}
use logicore_wms.Placement.Jobs.{Job, job_key, put_back, pending, is_placed, set_job, handle_type}

module _ (fl : Floats) where
  -- The job `j` of lot `k` waits again, with the code of the fault; nothing else has changed.
  pub record Waits (d : Context) (code : String) (k : ℕ) (j : Job fl) (p p' : Store (List (Job fl)))
      : Type 0 where
    pub back : find_row (job_key fl) k p'.tables ≡ some (put_back fl d code j)
    pub others :
        (n : ℕ)
        → (k == n) ≡ false
        → find_row (job_key fl) n p'.tables ≡ find_row (job_key fl) n p.tables
    pub quiet : p'.outbox ≡ p.outbox

  -- The placement failed with a fault below 500, and the inventory service has sent one message more,
  -- by which the job waits again.
  pub record Returned (c d : Context) (cat : Catalog) (e : Event) (s s' : Store Tables) (k : ℕ)
      (j : Job fl) (p : Store (List (Job fl))) : Type 0 where
    pub reason : Fault
    pub fails : (perform c cat placing e.payload (locked e.payload s)).0 ≡ err (fault reason)
    pub expected : reason.status < 500
    pub message : Pending
    pub tells : s'.outbox ≡ s.outbox ++ (message ∷ [])
    pub after : Store (List (Job fl))
    pub handled : Jobs.handle fl d message.payload p ≡ (ok tt, after)
    pub waits : Waits d reason.code k j p after
    pub status : (put_back fl d reason.code j).status ≡ pending

  executed :
      (f : List (Job fl) → Option (List (Job fl))) (p : Store (List (Job fl))) {l : List (Job fl)}
      → f p.tables ≡ some l
      → execute f p ≡ (ok tt, record p { tables = l })
  executed f p e = rw (e, execute) refl

  put_back-Waits :
      (d : Context) (code : String) (payload : Payload) (k : ℕ) (j : Job fl)
      (p : Store (List (Job fl)))
      → d.cast (string_at payload "stockId") ≡ some k
      → string_at payload "reason" ≡ code
      → find_row (job_key fl) k p.tables ≡ some j
      → (p' : Store (List (Job fl))) × (handle_type fl d placement_rejected payload p ≡ (ok tt, p'))
        × Waits d code k j p p'
  put_back-Waits d code payload k j p reads says found =
      let f = put_back fl d code in
      let (l, e) = update_row-some (job_key fl) k f p.tables in
      let (y, ey, u) =
        update_row-Updated (job_key fl) k (λ x. some (f x)) p.tables
          (λ y q. ap (λ (j : Job fl). j.stock_id) (sym (some_inj q)) ∙ keeps j) found e in
      (
        record p { tables = l },
        ap
              (λ o.
                (or_throw o (internal "invalid input syntax for type uuid") >>= λ stock.
                execute (set_job fl stock (put_back fl d (string_at payload "reason"))))
                  p)
              reads
            ∙ ap (λ r. execute (set_job fl k (put_back fl d r)) p) says
            ∙ executed (set_job fl k f) p e,
        record {
          back = ground (arith, u.finds k, ey);
          others = λ n ne. u.finds n ∙ rw ne refl;
          quiet = refl;
        },
      )
    where
      keeps : (j : Job fl) → (put_back fl d code j).stock_id ≡ j.stock_id
      keeps j = ground arith

  -- A placement that the inventory service handles is carried out, or it fails with a fault below 500,
  -- and the outbox has one message more, which the placement service handles without an error: the
  -- job of the lot waits again with the code of the fault, the other jobs are as they were, and no
  -- event is added. The placement service reads the identifier of the lot, which has a job that is not done.
  pub placement-Waits :
      (c d : Context) (cat : Catalog) (e : Event) (s : Store Tables) (k : ℕ) (j : Job fl)
      (p : Store (List (Job fl))) {s' : Store Tables}
      → command_of e.type ≡ some placing
      → Service.handle cat c e s ≡ (ok tt, s')
      → d.cast (string_at e.payload "stockId") ≡ some k
      → find_row (job_key fl) k p.tables ≡ some j
      → is_placed fl j.status ≡ false
      → (perform c cat placing e.payload (locked e.payload s) ≡ (ok tt, s'))
        ⊎ Returned c d cat e s s' k j p
  unfolding Jobs.handle string_at
  placement-Waits c d cat e s k j p known h reads found waiting =
      elim (handle-Rejected c cat e placing s known h) [
        | inl done ↦ inl done
        | inr r ↦
            let payload = put "reason" (text r.reason.code) e.payload in
            let (p', run, waits) =
              put_back-Waits d r.reason.code payload k j p
                (ap (λ v. d.cast (as_string v)) (get-put-ne "reason" "stockId" _ e.payload refl)
                  ∙ reads)
                (ap as_string (get-put "reason" _ e.payload)) found in
            inr (record {
              reason = r.reason;
              fails = r.fails;
              expected = r.expected;
              message = pending_of c (length s.outbox) placement_rejected payload;
              after = p';
              tells = r.tells;
              handled = run;
              waits = waits;
              status = rw waiting refl;
            })
      ]
