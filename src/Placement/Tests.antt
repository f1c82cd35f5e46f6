-- ===== src/Placement/Tests.antt =====
-- The choice among two locations, and a job that is done, with whole numbers for float64.
use logicore_wms.Base.{
  ℕ, ◌+◌, ◌-◌, ◌*◌, ◌/◌, min, max, String, Option, List, [], ◌∷◌, refl, arith, ltb, ◌==◌, true,
}
use logicore_wms.Base.Int.{pos, pos_part}
use logicore_wms.Base.Rows.{find_row}
use logicore_wms.Samples.{site, store_of}
use logicore_wms.Platform.Json.{text, float, null, Payload}
use logicore_wms.Platform.Tx.{Store, Event, event_of, placement_rejected}
use logicore_wms.Placement.Scoring.{Floats, Candidate, score, choose, nothing_found}
use logicore_wms.Placement.Choice.{Comparable, Chosen, choose-Chosen}
use logicore_wms.Placement.Jobs.{Job, new_job, placed, handle, Outside, assign}
use logicore_wms.Platform.Types.{ok}
use logicore_wms.Placement.Jobs.Laws.{IsDone}
use logicore_wms.Platform.Inbox.{process}
use logicore_wms.Placement.Runs.{rest, step, consumed, ticked, Run-IsDone}

abbrev pub naturals : Floats
naturals = record {
  F = ℕ;
  of = pos_part;
  units = pos;
  add = ◌+◌;
  sub = ◌-◌;
  mul = ◌*◌;
  div = ◌/◌;
  greater = max;
  lesser = min;
  lt = ltb;
  eq = ◌==◌;
}

naturals-Comparable : Comparable naturals
naturals-Comparable = record {
  irreflexive = λ x. ground arith;
  transitive = λ x y z h k. ground arith;
  congruent = λ x y z h. ground arith;
}

abbrev rack : String → ℕ → Candidate naturals
rack id n = record {
  id = id;
  warehouse_id = "w";
  max_weight = 100;
  max_volume = 100;
  current_weight = n;
  current_volume = n;
  distance = 10;
  storage_type = "DRY";
  zone_type = "STORAGE";
  status = "ACTIVE";
}

abbrev racks : List (Candidate naturals)
racks = rack "b" 10 ∷ rack "a" 90 ∷ []

abbrev rack_scores : Candidate naturals → Option ℕ
rack_scores c = score naturals c "w" "DRY" 5 5

choose-Chosen_example :
    Chosen naturals naturals-Comparable rack_scores racks
      (choose naturals rack_scores racks (nothing_found naturals))
choose-Chosen_example = choose-Chosen naturals naturals-Comparable rack_scores racks

abbrev job : Job naturals
job = record (new_job naturals site 7 2 []) { status = placed }

abbrev late : Event
late = event_of site 5 placement_rejected (("stockId", text (site.text 7)) ∷ [])

abbrev jobs : Store (List (Job naturals))
jobs = store_of (job ∷ [])

-- A lot of five units waits for one of the racks of its warehouse.
abbrev goods : Payload
goods = ("storageType", text "DRY") ∷ ("weight", float (pos 1)) ∷ ("volume", float (pos 1)) ∷ []

abbrev waiting : Store (List (Job naturals))
waiting = store_of (new_job naturals site 7 2 goods ∷ [])

abbrev outside : Outside naturals
outside = record {
  acquire = λ _. ok true;
  lot = λ _. ok (("quantity", float (pos 5)) ∷ ("locationId", null) ∷ []);
  locations = λ w.
      ok (
        record (rack "b" 10) { warehouse_id = w } ∷ record (rack "a" 90) { warehouse_id = w } ∷ []);
}

abbrev given : Store (List (Job naturals))
given = (assign naturals site outside waiting).1

-- A late rejection for a job that is done, and a tick of the worker.
abbrev late_jobs : Store (List (Job naturals))
late_jobs = (process site (handle naturals) late jobs).1

Run-IsDone_example : IsDone naturals 7 (assign naturals site outside late_jobs).1.tables
unfolding find_row
Run-IsDone_example =
    Run-IsDone naturals 7
      (step (step (rest jobs) (consumed site late jobs)) (ticked site outside late_jobs)) (refl, tt)
      (job, refl, refl)
