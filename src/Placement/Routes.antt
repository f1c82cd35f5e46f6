-- ===== src/Placement/Routes.antt =====
-- The routes of services/placement-service/internal/application/service.go.
use logicore_wms.Base.{String, Bool, List, ◌==◌, leb, take, keep}
use logicore_wms.Base.Sort.{sort_by}
use logicore_wms.Platform.Types.{Context, Result, after, id_check}
use logicore_wms.Platform.Json.{Payload}
use logicore_wms.Platform.Query.{Driver, query, first_row, row_key}
use logicore_wms.Placement.Scoring.{Floats}
use logicore_wms.Placement.Jobs.{Job, job_key}

module _ (fl : Floats) where
  -- `order by updated_at desc`
  abbrev pub newer : Job fl → Job fl → Bool
  newer i j = leb j.updated_at i.updated_at

  -- `GET /placements`
  unfoldable pub jobs_listed : Driver (Job fl) Payload → List (Job fl) → Result (List Payload)
  jobs_listed d jobs = query d.decode (d.fetch (take 500 (sort_by newer jobs)))

  -- `GET /placements/{id}`
  unfoldable pub job_shown :
      Context → Driver (Job fl) Payload → String → List (Job fl) → Result Payload
  job_shown c d id jobs = after (id_check c id) λ _. after (row_key c id) λ k.
      after (query d.decode (d.fetch (keep (λ j. job_key fl j == k) jobs)))
        (first_row "Placement job not found")
