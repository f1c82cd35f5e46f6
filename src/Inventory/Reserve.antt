-- ===== src/Inventory/Reserve.antt =====
-- `reserve` of services/inventory-service/internal/application/reservations.go.
use logicore_wms.Base.{
  ℕ, String, Bool, true, false, none, List, [], ◌∷◌, ◌-◌, ◌||◌, ltb, leb, ◌==◌, min, any, is_some,
  if◌then◌else◌, str_eq,
}
use logicore_wms.Base.Int.{pos, pos_part, leb_ℤ}
use logicore_wms.Platform.Types.{Context, fail, invalid, id_check}
use logicore_wms.Platform.Json.{Payload, get, string_at}
use logicore_wms.Platform.Tx.{
  Tx, cast, gets, lift, pure, execute, or_throw, throw_if, emit, stock_reserved, ◌>>=◌, ◌>>◌,
}
use logicore_wms.Inventory.Stock.{Line}
use logicore_wms.Inventory.Tables.{
  Reservation, Tables, confirmed, find_reservation, update_stock, reserve_more, insert_reservation,
  insert_allocation,
}
use logicore_wms.Inventory.Lots.{Lot, lots_for, decode_lines}

-- One lot gives `take` units to the reservation.
unfoldable pub draw : ℕ → ℕ → ℕ → Tx Tables (Unit {0})
draw r lot take = do
  execute (update_stock lot (reserve_more take))
  execute (insert_allocation (record { reservation_id = r; stock_id = lot; quantity = take }))

-- The loop over the lots; what is returned is `remaining`.
unfoldable pub allocate : ℕ → List Lot → ℕ → Tx Tables ℕ
allocate r [] remaining = pure remaining
allocate r (l ∷ lots) remaining =
    let take = min remaining l.n in
    let rest = draw r l.id take >> allocate r lots (remaining - take) in
    if take == 0 then pure remaining else rest

abbrev pub is_seen : String → List String → Bool
is_seen id = any λ s. str_eq s id

-- What one line takes.
unfoldable pub reserve_line : Context → ℕ → ℕ → List String → Line → Tx Tables (Unit {0})
reserve_line c r warehouse seen line = do
  throw_if (leb_ℤ line.quantity (pos 0) || is_seen line.product_id seen)
      (invalid "Invalid or duplicate line")
  lift (id_check c line.product_id)
  product ← cast c line.product_id
  lots ← gets (λ t. lots_for c.current_date warehouse product t.stocks)
  remaining ← allocate r lots (pos_part line.quantity)
  throw_if (ltb 0 remaining) (fail "INSUFFICIENT_STOCK" "Not enough placed, unexpired stock")

-- The loop over the lines.
unfoldable pub reserve_lines : Context → ℕ → ℕ → List String → List Line → Tx Tables (Unit {0})
reserve_lines c r warehouse seen [] = pure tt
reserve_lines c r warehouse seen (line ∷ lines) = do
  reserve_line c r warehouse seen line
  reserve_lines c r warehouse (line.product_id ∷ seen) lines

abbrev pub reservation_row : ℕ → ℕ → ℕ → Reservation
reservation_row r warehouse expires = record {
  id = r;
  warehouse_id = warehouse;
  status = confirmed;
  expires_at = expires;
  shipment_id = none;
}

abbrev pub is_empty : List Line → Bool
is_empty [] = true
is_empty (_ ∷ _) = false

-- The rest of `reserve` for an identifier that has no row yet.
unfoldable pub reserve_new : Context → Payload → ℕ → Tx Tables (Unit {0})
reserve_new c payload r = do
  expires ← or_throw (c.parse_time (string_at payload "expiresAt")) (invalid "Invalid expiry")
  throw_if (leb expires c.now) (fail "EXPIRED" "Reservation request expired")
  lines ← or_throw (decode_lines (get "items" payload)) (invalid "items required")
  throw_if (is_empty lines) (invalid "items required")
  warehouse ← cast c (string_at payload "warehouseId")
  execute (insert_reservation (reservation_row r warehouse expires))
  reserve_lines c r warehouse [] lines
  emit c stock_reserved payload

unfoldable pub reserve : Context → Payload → Tx Tables (Unit {0})
reserve c payload = do
  lift (id_check c (string_at payload "reservationId"))
  r ← cast c (string_at payload "reservationId")
  existing ← gets (find_reservation r)
  if is_some existing then pure tt else reserve_new c payload r
