-- ===== src/Inventory/Capacity.antt =====
-- `capacity` of services/inventory-service/internal/application/service.go: a location's ledger
-- takes `delta` more units of a lot, or gives them back. `Catalog` is what the product and the
-- warehouse services answer while the transaction runs.
pub mod Ledger
pub mod Bounds
use logicore_wms.Base.{
  ℕ, String, Bool, true, false, not, Option, none, some, List, [], ◌∷◌, ◌+◌, ◌*◌, ◌&&◌, ◌||◌,
  is_some, if◌then◌else◌, str_eq,
}
use logicore_wms.Base.Int.{ℤ, pos, negsuc, pos_part, neg_part, sub_ℕ, ltb_ℤ}
use logicore_wms.Platform.Types.{Context, Error, internal, fail, Result, ok, err}
use logicore_wms.Platform.Json.{Json, Payload, text, int, float}
use logicore_wms.Platform.Tx.{
  Tx, Store, cast, gets, lift, execute, or_throw, throw_if, emit, location_capacity_changed, ◌>>=◌,
  ◌>>◌,
}
use logicore_wms.Inventory.Stock.{Stock}
use logicore_wms.Inventory.Tables.{Tables, Capacity, find_capacity, update_capacity, open_capacity}

pub record Product : Type 0 where
  pub weight : ℕ
  pub volume : ℕ
  pub storage_type : String
  pub active : Bool

pub record Location : Type 0 where
  pub warehouse_id : String
  pub max_weight : ℕ
  pub max_volume : ℕ
  pub storage_type : String
  pub zone_type : String
  pub status : String

-- `p.Get` of a product, a location and a warehouse, by the identifier in its path.
pub record Catalog : Type 0 where
  pub product : String → Result Product
  pub location : String → Result Location
  pub warehouse : String → Result Payload

-- Whether the location takes the lot; its limits count only where units are added.
unfoldable pub check_location : Context → Stock → Location → Result (Unit {0})
check_location c x loc =
    if not (str_eq loc.warehouse_id (c.text x.warehouse_id))
    then err (fail "WRONG_WAREHOUSE" "Location belongs to another warehouse")
    else if str_eq loc.status "BLOCKED" || str_eq loc.status "MAINTENANCE"
    then err (fail "LOCATION_BLOCKED" "Location is unavailable")
    else if not (str_eq loc.zone_type "STORAGE") || not (str_eq loc.storage_type x.storage_type)
    then err (fail "INCOMPATIBLE_LOCATION" "Storage restrictions do not match")
    else ok tt

abbrev pub with_location : Location → Result (Unit {0}) → Result (Option Location)
with_location loc (ok _) = ok (some loc)
with_location loc (err e) = err e

abbrev pub checked : Context → Stock → Result Location → Result (Option Location)
checked c x (err e) = err e
checked c x (ok loc) = with_location loc (check_location c x loc)

-- The location of an increase, which must take the lot; none is asked for in a decrease.
unfoldable pub limits : Context → Catalog → Stock → String → ℤ → Result (Option Location)
limits c cat x location delta =
    if ltb_ℤ (pos 0) delta then checked c x (cat.location location) else ok none

-- `current + float64(delta) * unit`
abbrev pub shift : ℕ → ℤ → ℕ → ℤ
shift current delta unit = sub_ℕ (current + pos_part delta * unit) (neg_part delta * unit)

-- More than a limit, by over 10^-9.
abbrev pub exceeds : Option Location → ℤ → ℤ → Bool
exceeds none weight volume = false
exceeds (some loc) weight volume =
    ltb_ℤ (pos (loc.max_weight + 1)) weight || ltb_ℤ (pos (loc.max_volume + 1)) volume

-- The ledger row after the change, or the reason against it.
unfoldable pub charge : Option Location → Stock → ℤ → Capacity → Result Capacity
charge loc x delta row =
    let weight = shift row.current_weight delta x.weight in
    let volume = shift row.current_volume delta x.volume in
    if exceeds loc weight volume
    then err (fail "LOCATION_FULL" "Location capacity exceeded")
    else if ltb_ℤ weight (negsuc 99) || ltb_ℤ volume (negsuc 99)
    then err (internal "capacity invariant violated")
    else ok (record row {
      current_weight = pos_part weight;
      current_volume = pos_part volume;
      revision = row.revision + 1;
    })

abbrev pub capacity_event : Context → String → Stock → Capacity → Payload
capacity_event c location x row =
    ("locationId", text location)
    ∷ ("warehouseId", text (c.text x.warehouse_id))
    ∷ ("currentWeight", float (pos row.current_weight))
    ∷ ("currentVolume", float (pos row.current_volume))
    ∷ ("revision", int (pos row.revision))
    ∷ []

unfoldable pub capacity : Context → Catalog → Stock → String → ℤ → Tx Tables (Unit {0})
capacity c cat x location delta = do
  loc ← lift (limits c cat x location delta)
  k ← cast c location
  execute (open_capacity k x.warehouse_id)
  found ← gets (find_capacity k)
  row ← or_throw found (internal "no rows in result set")
  row' ← lift (charge loc x delta row)
  execute (update_capacity k (λ _. some row'))
  emit c location_capacity_changed (capacity_event c location x row')
