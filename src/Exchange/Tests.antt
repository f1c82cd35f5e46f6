-- ===== src/Exchange/Tests.antt =====
-- A placement that is refused, on the small site.
use logicore_wms.Base.{◌⊎◌, ◌≡◌, [], ◌∷◌, List, refl}
use logicore_wms.Base.Rows.{find_row}
use logicore_wms.Samples.{site, store_of}
use logicore_wms.Platform.Types.{ok, id_check}
use logicore_wms.Platform.Json.{string_at}
use logicore_wms.Platform.Tx.{Store, Event, event_of, product_placement_assigned, lock, emit}
use logicore_wms.Inventory.Tables.{stock}
use logicore_wms.Inventory.Fulfil.{place}
use logicore_wms.Inventory.Service.{placing, perform, handle}
use logicore_wms.Inventory.Service.Rejection.{locked}
use logicore_wms.Placement.Jobs.{Job, new_job, assigned}
use logicore_wms.Exchange.{Returned, placement-Waits}
use logicore_wms.Placement.Tests.{naturals}
use logicore_wms.Inventory.Tests.{catalog, nothing}
use logicore_wms.Inventory.Tests.Runs.{misplaced, told}

abbrev job : Job naturals
job = record (new_job naturals site 40 2 []) { status = assigned }

abbrev jobs : Store (List (Job naturals))
jobs = store_of (job ∷ [])

-- The lot to be placed does not exist.
placement-Waits_example :
    (perform site catalog placing misplaced.payload (locked misplaced.payload nothing)
      ≡ (ok tt, told))
    ⊎ Returned naturals site site catalog misplaced nothing told 40 job jobs
unfolding handle logicore_wms.Platform.Tx.nested lock id_check place stock find_row string_at emit
    logicore_wms.Inventory.Service.reject
placement-Waits_example =
    placement-Waits naturals site site catalog misplaced nothing 40 job jobs {s' = told} refl refl
      refl refl refl
