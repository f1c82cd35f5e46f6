-- ===== src/Inventory/Stock.antt =====
-- services/inventory-service/internal/domain/stock.go. Weights and volumes are counted in units of
-- 10^-9; those of a lot are not negative, and a location's limits are not either.
use logicore_wms.Base.{ℕ, String, Option, if◌then◌else◌}
use logicore_wms.Base.Int.{ℤ, pos, ◌-ℤ◌, ltb_ℤ, leb_ℤ}
use logicore_wms.Platform.Types.{Result, ok, err, fail, invalid}

-- `Stock`, and a row of `stocks` (whose dates are the numbers of days).
pub record Stock : Type 0 where
  pub id : ℕ
  pub product_id : ℕ
  pub warehouse_id : ℕ
  pub location_id : Option ℕ
  pub quantity : ℕ
  pub reserved : ℕ
  pub batch : String
  pub expiration : Option ℕ
  pub weight : ℕ
  pub volume : ℕ
  pub storage_type : String
  pub created_at : ℕ

unfoldable pub available : ℤ → ℤ → ℤ
available quantity reserved = quantity -ℤ reserved

unfoldable pub check_quantity : ℤ → ℤ → Result (Unit {0})
check_quantity quantity avail =
    if leb_ℤ quantity (pos 0)
    then err (invalid "Quantity must be positive")
    else if ltb_ℤ avail quantity
    then err (fail "INSUFFICIENT_STOCK" "Not enough available stock")
    else ok tt

pub record Line : Type 0 where
  pub product_id : String
  pub quantity : ℤ
