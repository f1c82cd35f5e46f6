-- ===== src/Inventory/Changes.antt =====
-- `Receive` and `Change` of services/inventory-service/internal/application/service.go.
use logicore_wms.Base.{
  ℕ, String, Bool, false, not, Option, none, some, [], ◌∷◌, ◌++◌, ◌&&◌, ◌||◌, leb, is_some,
  if◌then◌else◌, str_eq,
}
use logicore_wms.Base.Int.{ℤ, pos, negsuc, pos_part, neg, ◌-ℤ◌, ltb_ℤ, leb_ℤ}
use logicore_wms.Platform.Types.{Context, fail, invalid, Result, ok, err, id_check}
use logicore_wms.Platform.Json.{Json, Payload, text, int, float, null, string_at}
use logicore_wms.Platform.Tx.{
  Tx, EventType, cast, lift, pure, execute, throw_if, emit, lock, goods_received, stock_adjusted,
  stock_written_off, stock_moved, ◌>>=◌, ◌>>◌,
}
use logicore_wms.Inventory.Stock.{Stock, available, check_quantity}
use logicore_wms.Inventory.Tables.{Tables, update_stock, set_quantity, remove, insert_stock, stock}
use logicore_wms.Inventory.Capacity.{Catalog, Product, capacity}

pub record Receive : Type 0 where
  pub product_id : String
  pub warehouse_id : String
  pub quantity : ℤ
  pub batch : String
  pub expiration : String

pub record Change : Type 0 where
  pub stock_id : String
  pub to_location_id : String
  pub quantity : ℤ
  pub reason : String

-- The three routes of `Change`.
pub data Action : Type 0 where
  move write_off adjust : Action

abbrev pub billion : ℕ
billion = 1000000000

abbrev pub later_than : ℕ → Option ℕ → Result (Option ℕ)
later_than today none = err (invalid "expirationDate must be a future ISO date")
later_than today (some d) =
    if leb d today then err (invalid "expirationDate must be a future ISO date") else ok (some d)

-- The date of a receipt, which may be left out.
unfoldable pub expiration_of : Context → String → Result (Option ℕ)
expiration_of c s = if str_eq s "" then ok none else later_than c.today (c.parse_date s)

-- The event has the request's texts of the product and the warehouse.
abbrev pub received_event : Context → Receive → Stock → Payload
received_event c q x =
    ("stockId", text (c.text x.id))
    ∷ ("productId", text q.product_id)
    ∷ ("warehouseId", text q.warehouse_id)
    ∷ ("quantity", int (pos x.quantity))
    ∷ ("weight", float (pos x.weight))
    ∷ ("volume", float (pos x.volume))
    ∷ ("storageType", text x.storage_type)
    ∷ []

abbrev pub received_lot : Context → Receive → Product → Option ℕ → ℕ → ℕ → Stock
received_lot c q product expires product_id warehouse_id = record {
  id = c.new_id;
  product_id = product_id;
  warehouse_id = warehouse_id;
  location_id = none;
  quantity = pos_part q.quantity;
  reserved = 0;
  batch = q.batch;
  expiration = expires;
  weight = product.weight;
  volume = product.volume;
  storage_type = product.storage_type;
  created_at = c.db_now;
}

-- `Receive`. The lot that is answered has the identifiers, where the code's has the request's texts of them.
unfoldable pub receive : Context → Catalog → Receive → Tx Tables Stock
receive c cat q = do
  lift (id_check c q.product_id)
  lock c q.warehouse_id
  throw_if (leb_ℤ q.quantity (pos 0) || ltb_ℤ (pos billion) q.quantity || str_eq q.batch "")
      (invalid "Positive quantity <= 1 billion and batchNumber required")
  product ← lift (cat.product q.product_id)
  throw_if (not product.active) (fail "INACTIVE_PRODUCT" "Product is inactive")
  warehouse ← lift (cat.warehouse q.warehouse_id)
  throw_if (not (str_eq (string_at warehouse "status") "ACTIVE"))
      (fail "WAREHOUSE_UNAVAILABLE" "Warehouse inactive")
  expires ← lift (expiration_of c q.expiration)
  product_id ← cast c q.product_id
  warehouse_id ← cast c q.warehouse_id
  let x = received_lot c q product expires product_id warehouse_id
  execute (insert_stock c x)
  emit c goods_received (received_event c q x)
  pure x

abbrev pub recharge_at : Context → Catalog → Stock → ℤ → Option ℕ → Tx Tables (Unit {0})
recharge_at c cat x delta none = pure tt
recharge_at c cat x delta (some l) = capacity c cat x (c.text l) delta

-- The location of the lot, if it has one, is charged.
unfoldable pub recharge : Context → Catalog → Stock → ℤ → Tx Tables (Unit {0})
recharge c cat x delta = recharge_at c cat x delta x.location_id

-- `delta == 0`
abbrev pub is_zero : ℤ → Bool
is_zero (pos n) = leb n 0
is_zero (negsuc n) = false

-- The `adjust` of `Change`.
unfoldable pub adjust_to : Context → Catalog → Change → Stock → Tx Tables Payload
adjust_to c cat q x = do
  throw_if (ltb_ℤ q.quantity (pos 0) || ltb_ℤ (pos billion) q.quantity)
      (invalid "Target quantity must be 0..1 billion")
  throw_if (ltb_ℤ q.quantity (pos x.reserved))
      (fail "RESERVED_STOCK" "Cannot adjust below reserved quantity")
  let delta = q.quantity -ℤ pos x.quantity
  throw_if (str_eq q.reason "") (invalid "reason required")
  throw_if (not (is_some x.location_id) && ltb_ℤ (pos 0) delta)
      (fail "UNPLACED_STOCK" "Receive new unplaced stock separately")
  if is_zero delta then pure tt else recharge c cat x delta
  execute (update_stock x.id (set_quantity (pos_part q.quantity)))
  emit c stock_adjusted (
      ("stockId", text (c.text x.id))
      ∷ ("productId", text (c.text x.product_id))
      ∷ ("warehouseId", text (c.text x.warehouse_id))
      ∷ ("quantity", int q.quantity)
      ∷ ("delta", int delta)
      ∷ ("reason", text q.reason)
      ∷ [])
  pure (("stockId", text (c.text x.id)) ∷ ("quantity", int q.quantity) ∷ [])

abbrev pub is_at : Context → Stock → String → Bool
is_at c x location = elim x.location_id [ none ↦ false | some l ↦ str_eq (c.text l) location ]

abbrev pub location_text : Context → Option ℕ → Json
location_text c none = null
location_text c (some l) = text (c.text l)

-- The units of a lot at their new location.
abbrev pub moved_lot : Context → Stock → ℕ → ℕ → Stock
moved_lot c x to n = record x { id = c.new_id; location_id = some to; quantity = n; reserved = 0 }

-- The destination of a move: its ledger takes the units, and they become a lot of their own.
unfoldable pub move_to : Context → Catalog → Change → Stock → Payload → Tx Tables Payload
move_to c cat q x payload = do
  lift (id_check c q.to_location_id)
  throw_if (is_at c x q.to_location_id) (fail "SAME_LOCATION" "Source equals destination")
  capacity c cat x q.to_location_id q.quantity
  to ← cast c q.to_location_id
  execute (insert_stock c (moved_lot c x to (pos_part q.quantity)))
  pure (
      payload
      ++ (("toLocationId", text q.to_location_id)
          ∷ ("destinationStockId", text (c.text c.new_id))
          ∷ ("fromLocationId", location_text c x.location_id)
          ∷ []))

-- What `Change` does before the lot itself is reduced, and the event that it publishes.
abbrev pub destination : Context → Catalog → Action → Change → Stock → Payload → Tx Tables Payload
destination c cat move q x payload = move_to c cat q x payload
destination c cat _ q x payload = do
  throw_if (str_eq q.reason "") (invalid "reason required")
  pure (payload ++ (("reason", text q.reason) ∷ []))

abbrev pub event_of_action : Action → EventType
event_of_action move = stock_moved
event_of_action _ = stock_written_off

-- The `move` and the `write-off` of `Change`.
unfoldable pub take_out : Context → Catalog → Action → Change → Stock → Tx Tables Payload
take_out c cat action q x = do
  lift (check_quantity q.quantity (available (pos x.quantity) (pos x.reserved)))
  payload ← destination c cat action q x (
      ("stockId", text (c.text x.id))
      ∷ ("productId", text (c.text x.product_id))
      ∷ ("warehouseId", text (c.text x.warehouse_id))
      ∷ ("quantity", int q.quantity)
      ∷ [])
  recharge c cat x (neg (pos_part q.quantity))
  execute (update_stock x.id (remove (pos_part q.quantity)))
  emit c (event_of_action action) payload
  pure payload

abbrev pub change_lot : Context → Catalog → Action → Change → Stock → Tx Tables Payload
change_lot c cat adjust q x = adjust_to c cat q x
change_lot c cat move q x = take_out c cat move q x
change_lot c cat write_off q x = take_out c cat write_off q x

-- `Change`: the lot is read again under the lock of its warehouse.
unfoldable pub change : Context → Catalog → Action → Change → Tx Tables Payload
change c cat action q = do
  lift (id_check c q.stock_id)
  before ← stock c q.stock_id
  lock c (c.text before.warehouse_id)
  x ← stock c q.stock_id
  change_lot c cat action q x
