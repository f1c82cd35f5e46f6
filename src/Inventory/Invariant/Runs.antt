-- ===== src/Inventory/Invariant/Runs.antt =====
-- The invariant along the runs of the inventory service.
use logicore_wms.Platform.Json.{Payload}
use logicore_wms.Platform.Tx.{Store}
use logicore_wms.Platform.Commands.{Codec}
use logicore_wms.Inventory.Stock.{Stock}
use logicore_wms.Inventory.Tables.{Tables}
use logicore_wms.Inventory.Changes.{Receive, Change, Action}
use logicore_wms.Inventory.Runs.{Direction, Run, Run-moves}
use logicore_wms.Inventory.Invariant.{Inv}
use logicore_wms.Inventory.Invariant.Change.{receive-Inv, change-Inv}
use logicore_wms.Inventory.Invariant.Release.{release-Inv}
use logicore_wms.Inventory.Invariant.Handle.{handle-Inv}

pub Inv-Direction : Direction (λ t t'. Inv t → Inv t')
Inv-Direction = record {
  stay = λ t v. v;
  follow = λ f g v. g (f v);
  handles = λ c cat reads e. record { apply = λ s a s' h v. handle-Inv c cat reads e s v h };
  releases = λ c id expiring. record { apply = λ s a s' h v. release-Inv c id expiring s v h };
  receives = λ c cat q. record { apply = λ s a s' h v. receive-Inv c cat q s v h };
  changes = λ c cat reads action q. record {
    apply = λ s a s' h v. change-Inv c cat reads s action q v h;
  };
}

module _ {receipts : Codec Receive Stock} {changes : Codec (Action × Change) Payload} where
  -- Whatever events, ticks and requests a service has worked off, in any order and whether or not
  -- they failed, its tables are consistent if they were at the start.
  pub Run-Inv : {s s' : Store Tables} → Run receipts changes s s' → Inv s.tables → Inv s'.tables
  Run-Inv r = Run-moves Inv-Direction r
