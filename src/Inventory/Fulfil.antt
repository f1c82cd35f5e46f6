-- ===== src/Inventory/Fulfil.antt =====
-- `release`, `ship` and `place` of
-- services/inventory-service/internal/application/reservations.go.
use logicore_wms.Base.{
  ℕ, String, Bool, true, false, not, Option, none, some, List, [], ◌∷◌, ◌&&◌, ◌||◌, leb, ◌==◌,
  is_some, if◌then◌else◌, str_eq,
}
use logicore_wms.Base.Int.{pos, neg}
use logicore_wms.Platform.Types.{Context, internal, fail, id_check}
use logicore_wms.Platform.Json.{
  Json, Items, Payload, text, int, arr, obj, nil, cons, end, field, string_at, put,
}
use logicore_wms.Platform.Tx.{
  Tx, cast, gets, lift, pure, throw, execute, or_throw, throw_if, emit, stock_reservation_cancelled,
  reservation_expired, stock_shipped, stock_added, ◌>>=◌, ◌>>◌,
}
use logicore_wms.Inventory.Stock.{Stock}
use logicore_wms.Inventory.Tables.{
  Tables, Status, Reservation, Allocation, confirmed, rejected, cancelled, expired, completed,
  find_stock, find_reservation, update_stock, update_reservation, unreserve, deduct, put_at,
  allocations_of, stock,
}
use logicore_wms.Inventory.Capacity.{Catalog, capacity}
use logicore_wms.Base.Sort.{sort_by}

abbrev pub by_stock : Allocation → Allocation → Bool
by_stock a b = leb a.stock_id b.stock_id

-- An allocation with its lot, as events list it.
abbrev item_of : Context → Stock → Allocation → Json
item_of c x a = obj (
    field "productId" (text (c.text x.product_id))
      (field "stockId" (text (c.text x.id)) (field "quantity" (int (pos a.quantity)) end)))

abbrev join_item : Context → Option Stock → Allocation → Items → Items
join_item c none a items = items
join_item c (some x) a items = cons (item_of c x a) items

-- `… from allocations a join stocks s on s.id=a.stock_id …`
unfoldable pub items_of : Context → Tables → List Allocation → Items
items_of c t [] = nil
items_of c t (a ∷ l) = join_item c (find_stock a.stock_id t) a (items_of c t l)

-- `update stocks s set … from allocations a where … s.id=a.stock_id`
unfoldable pub unreserve_all : List Allocation → Tx Tables (Unit {0})
unreserve_all [] = pure tt
unreserve_all (a ∷ l) = do execute (update_stock a.stock_id (unreserve a.quantity)); unreserve_all l

abbrev pub with_status : Status → Reservation → Option Reservation
with_status s r = some (record r { status = s })

-- The rest of `release` for a confirmed reservation.
unfoldable pub free : Context → String → Reservation → Bool → Tx Tables (Unit {0})
free c id r expiring = do
  allocs ← gets (allocations_of r.id)
  unreserve_all allocs
  execute (update_reservation r.id (with_status (if expiring then expired else cancelled)))
  items ← gets (λ t. items_of c t (sort_by by_stock (allocations_of r.id t)))
  emit c (if expiring then reservation_expired else stock_reservation_cancelled) (
      ("reservationId", text id)
      ∷ ("warehouseId", text (c.text r.warehouse_id))
      ∷ ("items", arr items)
      ∷ [])

abbrev pub release_row : Context → String → Reservation → Bool → Status → Tx Tables (Unit {0})
release_row c id r expiring completed = throw (fail "ALREADY_SHIPPED" "Reservation already shipped")
release_row c id r expiring confirmed = free c id r expiring
release_row c id r expiring _ = pure tt

unfoldable pub release : Context → String → Bool → Tx Tables (Unit {0})
release c id expiring = do
  k ← cast c id
  found ← gets (find_reservation k)
  r ← or_throw found (internal "reservation command not yet processed")
  release_row c id r expiring r.status

abbrev pub has_expired : ℕ → Option ℕ → Bool
has_expired today none = false
has_expired today (some d) = leb d today

-- One allocation leaves the warehouse.
unfoldable pub ship_line : Context → Catalog → Allocation → Tx Tables Json
ship_line c cat a = do
  x ← stock c (c.text a.stock_id)
  throw_if (has_expired c.today x.expiration) (fail "EXPIRED_STOCK" "Allocated lot expired")
  l ← or_throw x.location_id (internal "reserved stock is unplaced")
  capacity c cat x (c.text l) (neg a.quantity)
  execute (update_stock a.stock_id (deduct a.quantity))
  pure (item_of c x a)

unfoldable pub ship_lines : Context → Catalog → List Allocation → Tx Tables Items
ship_lines c cat [] = pure nil
ship_lines c cat (a ∷ l) = do
  item ← ship_line c cat a
  items ← ship_lines c cat l
  pure (cons item items)

abbrev pub is_status : Status → Status → Bool
is_status confirmed confirmed = true
is_status completed completed = true
is_status rejected rejected = true
is_status cancelled cancelled = true
is_status expired expired = true
is_status _ _ = false

abbrev pub is_shipment : Context → Option ℕ → String → Bool
is_shipment c none shipment = false
is_shipment c (some k) shipment = str_eq (c.text k) shipment

abbrev pub complete : ℕ → Reservation → Option Reservation
complete shipment r = some (record r { status = completed; shipment_id = some shipment })

-- The rest of `ship` once the reservation is found and is not that of the same shipment again.
unfoldable pub ship_row : Context → Catalog → Payload → Reservation → Tx Tables (Unit {0})
ship_row c cat payload r = do
  throw_if (not (is_status r.status confirmed) || leb r.expires_at c.now)
      (fail "RESERVATION_UNAVAILABLE" "Reservation is not active")
  throw_if (not (str_eq (c.text r.warehouse_id) (string_at payload "warehouseId")))
      (fail "WRONG_WAREHOUSE" "Reservation warehouse mismatch")
  allocs ← gets (λ t. sort_by by_stock (allocations_of r.id t))
  items ← ship_lines c cat allocs
  shipment ← cast c (string_at payload "shipmentId")
  execute (update_reservation r.id (complete shipment))
  emit c stock_shipped (put "items" (arr items) payload)

unfoldable pub ship : Context → Catalog → Payload → Tx Tables (Unit {0})
ship c cat payload = do
  k ← cast c (string_at payload "reservationId")
  found ← gets (find_reservation k)
  r ← or_throw found (fail "RESERVATION_REQUIRED" "Unknown reservation")
  if is_status r.status completed && is_shipment c r.shipment_id (string_at payload "shipmentId")
      then pure tt
      else ship_row c cat payload r

-- The rest of `place` for a lot that waits for a location.
unfoldable pub place_at : Context → Catalog → Stock → String → Tx Tables (Unit {0})
place_at c cat x location = do
  lift (id_check c location)
  capacity c cat x location (pos x.quantity)
  l ← cast c location
  execute (update_stock x.id (put_at l))
  emit c stock_added (
      ("stockId", text (c.text x.id))
      ∷ ("productId", text (c.text x.product_id))
      ∷ ("warehouseId", text (c.text x.warehouse_id))
      ∷ ("locationId", text location)
      ∷ ("quantity", int (pos x.quantity))
      ∷ [])

unfoldable pub place : Context → Catalog → Payload → Tx Tables (Unit {0})
place c cat payload = do
  x ← stock c (string_at payload "stockId")
  throw_if (not (str_eq (c.text x.warehouse_id) (string_at payload "warehouseId")))
      (fail "WRONG_WAREHOUSE" "Placement warehouse mismatch")
  if is_some x.location_id || x.quantity == 0
      then pure tt
      else place_at c cat x (string_at payload "locationId")
