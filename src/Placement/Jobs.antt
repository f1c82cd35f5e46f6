-- ===== src/Placement/Jobs.antt =====
-- `Handle` and `assign` of services/placement-service/internal/application/service.go over the table
-- `placement_jobs`. Times are counted in microseconds.
pub mod Keyed
pub mod Laws
pub mod Assign
use logicore_wms.Base.{
  ℕ, ◌+◌, ◌*◌, String, Bool, true, false, not, Option, none, some, List, [], ◌∷◌, ◌++◌, ◌&&◌, ltb,
  leb, keep, is_some, if◌then◌else◌,
}
use logicore_wms.Base.Int.{ℤ, pos, leb_ℤ}
use logicore_wms.Base.Rows.{find_row, update_row}
use logicore_wms.Platform.Types.{Context, Result, internal}
use logicore_wms.Platform.Json.{Json, Payload, null, text, float, get, put, string_at, number_at}
use logicore_wms.Platform.Tx.{
  Tx, Event, EventType, goods_received, placement_rejected, stock_added, product_placement_assigned,
  cast, gets, lift, pure, execute, emit, transaction, ◌>>=◌, ◌>>◌,
}
use logicore_wms.Placement.Scoring.{Floats, Candidate, score, choose, nothing_found}

pub data JobStatus : Type 0 where
  pending assigned placed cancelled : JobStatus

module _ (fl : Floats) where
  -- A row of `placement_jobs`.
  pub record Job : Type 0 where
    pub stock_id : ℕ
    pub warehouse_id : ℕ
    pub payload : Payload
    pub status : JobStatus
    pub attempts : ℕ
    pub next_attempt : ℕ
    pub last_error : Option String
    pub location_id : Option ℕ
    pub points : Option fl.F
    pub updated_at : ℕ

  abbrev pub job_key : Job → ℕ
  job_key j = j.stock_id

  abbrev pub seconds : ℕ → ℕ
  seconds n = n * 1000000

  abbrev pub new_job : Context → ℕ → ℕ → Payload → Job
  new_job c stock warehouse payload = record {
    stock_id = stock;
    warehouse_id = warehouse;
    payload = payload;
    status = pending;
    attempts = 0;
    next_attempt = c.db_now;
    last_error = none;
    location_id = none;
    points = none;
    updated_at = c.db_now;
  }

  -- `insert … on conflict do nothing`
  unfoldable pub insert_job : Job → List Job → Option (List Job)
  insert_job j jobs =
      if is_some (find_row job_key j.stock_id jobs) then some jobs else some (j ∷ jobs)

  -- `update placement_jobs set … where stock_id=$1`
  abbrev pub set_job : ℕ → (Job → Job) → List Job → Option (List Job)
  set_job k f = update_row job_key k (λ j. some (f j))

  abbrev pub is_placed : JobStatus → Bool
  is_placed placed = true
  is_placed _ = false

  -- `… set status='PENDING' … where … status<>'PLACED'`
  abbrev pub put_back : Context → String → Job → Job
  put_back c reason j = if is_placed j.status then j else record j {
    status = pending;
    last_error = some reason;
    next_attempt = c.db_now + seconds 3;
    updated_at = c.db_now;
  }

  abbrev pub settle_placed : Context → Job → Job
  settle_placed c j = record j { status = placed; last_error = none; updated_at = c.db_now }

  abbrev pub handle_type : Context → EventType → Payload → Tx (List Job) (Unit {0})
  handle_type c goods_received v = do
    stock ← cast c (string_at v "stockId")
    warehouse ← cast c (string_at v "warehouseId")
    execute (insert_job (new_job c stock warehouse v))
  handle_type c placement_rejected v = do
    stock ← cast c (string_at v "stockId")
    execute (set_job stock (put_back c (string_at v "reason")))
  handle_type c stock_added v = do
    stock ← cast c (string_at v "stockId")
    execute (set_job stock (settle_placed c))
  handle_type c _ v = pure tt

  -- `Handle`
  unfoldable pub handle : Context → Event → Tx (List Job) (Unit {0})
  handle c e = handle_type c e.type e.payload

  abbrev pub is_pending : JobStatus → Bool
  is_pending pending = true
  is_pending _ = false

  abbrev earlier : Job → Option Job → Option Job
  earlier j none = some j
  earlier j (some k) = if leb j.next_attempt k.next_attempt then some j else some k

  -- `… where status='PENDING' and next_attempt<=now() order by next_attempt limit 1`
  unfoldable pub next_due : ℕ → List Job → Option Job
  next_due now [] = none
  next_due now (j ∷ jobs) =
      if is_pending j.status && leb j.next_attempt now
      then earlier j (next_due now jobs)
      else next_due now jobs

  -- What the other services answer while a job is assigned: Redis, whether the lock of a warehouse
  -- was free, the inventory service, a lot, and the warehouse service, the locations.
  pub record Outside : Type 0 where
    pub acquire : String → Result Bool
    pub lot : String → Result Payload
    pub locations : String → Result (List (Candidate fl))

  abbrev pub scores_of : Context → Job → Payload → Candidate fl → Option fl.F
  scores_of c j payload candidate =
      score fl candidate (c.text j.warehouse_id) (string_at payload "storageType")
        (fl.mul (fl.of (number_at payload "weight")) (fl.of (number_at payload "quantity")))
        (fl.mul (fl.of (number_at payload "volume")) (fl.of (number_at payload "quantity")))

  abbrev pub give_up : Context → Job → Job
  give_up c j = record j {
    status = cancelled;
    last_error = some "NO_REMAINING_STOCK";
    updated_at = c.db_now;
  }

  abbrev pub put_off : Context → Job → Job
  put_off c j = record j {
    attempts = j.attempts + 1;
    last_error = some "NO_SUITABLE_LOCATION";
    next_attempt = c.db_now + seconds 10;
    updated_at = c.db_now;
  }

  abbrev pub give_place : Context → ℕ → fl.F → Job → Job
  give_place c location best j = record j {
    status = assigned;
    location_id = some location;
    points = some best;
    attempts = j.attempts + 1;
    updated_at = c.db_now;
  }

  -- What is done with the outcome of the loop.
  abbrev pub conclude :
      Context → Job → Payload → fl.F × Option (Candidate fl) → Tx (List Job) (Unit {0})
  conclude c j payload (best, none) = execute (set_job j.stock_id (put_off c))
  conclude c j payload (best, some chosen) = do
    location ← cast c chosen.id
    execute (set_job j.stock_id (give_place c location best))
    emit c product_placement_assigned
        (put "score" (float (fl.units best)) (put "locationId" (text chosen.id) payload))

  abbrev pub is_null : Json → Bool
  is_null null = true
  is_null _ = false

  abbrev pub is_zero : ℤ → Bool
  is_zero n = leb_ℤ n (pos 0) && leb_ℤ (pos 0) n

  -- The rest of `assign` for a lot that has been read.
  unfoldable pub assign_lot : Context → Outside → Job → Payload → Tx (List Job) (Unit {0})
  assign_lot c out j lot =
      let payload = put "quantity" (float (number_at lot "quantity")) j.payload in
      if is_zero (number_at lot "quantity")
      then execute (set_job j.stock_id (give_up c))
      else if not (is_null (get "locationId" lot))
      then execute (set_job j.stock_id (settle_placed c))
      else (do
        locations ← lift (out.locations (c.text j.warehouse_id))
        conclude c j payload (choose fl (scores_of c j payload) locations (nothing_found fl)))

  abbrev pub assign_job : Context → Outside → Option Job → Tx (List Job) (Unit {0})
  assign_job c out none = pure tt
  assign_job c out (some j) = do
    free ← lift (out.acquire (c.text j.warehouse_id))
    if not free
        then pure tt
        else (do lot ← lift (out.lot (c.text j.stock_id)); assign_lot c out j lot)

  -- `assign`
  unfoldable pub assign : Context → Outside → Tx (List Job) (Unit {0})
  assign c out = transaction do due ← gets (next_due c.db_now); assign_job c out due
