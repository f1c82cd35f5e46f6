-- ===== src/Services.antt =====
-- The entry points of the services: services/inventory-service/cmd/main.go,
-- services/placement-service/cmd/main.go and services/audit-service/cmd/main.go.
use logicore_wms.Base.{ℕ, List}
use logicore_wms.Platform.Runtime.{Libraries, Ending, Act, main}

abbrev pub inventory_main : Libraries → Ending → List Act × ℕ
inventory_main l ending = main l ending "inventory-service"

abbrev pub placement_main : Libraries → Ending → List Act × ℕ
placement_main l ending = main l ending "placement-service"

abbrev pub audit_main : Libraries → Ending → List Act × ℕ
audit_main l ending = main l ending "audit-service"
