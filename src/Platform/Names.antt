-- ===== src/Platform/Names.antt =====
-- The names under which events are published, as the services spell them.
use logicore_wms.Base.{
  String, ◌≡◌, refl, if◌then◌else◌, str_eq, eq_iff, List, [], ◌∷◌, Bool-cases, inl, inr,
}
use logicore_wms.Platform.Tx.{
  EventType, reservation_requested, reservation_cancellation_requested, shipment_requested,
  product_placement_assigned, goods_received, placement_rejected, stock_added, reservation_rejected,
  shipment_rejected, reservation_cancellation_rejected, location_capacity_changed, stock_reserved,
  stock_reservation_cancelled, reservation_expired, stock_shipped, stock_adjusted,
  stock_written_off, stock_moved, other,
}

unfoldable pub name_of : EventType → String
name_of reservation_requested = "ReservationRequested"
name_of reservation_cancellation_requested = "ReservationCancellationRequested"
name_of shipment_requested = "ShipmentRequested"
name_of product_placement_assigned = "ProductPlacementAssigned"
name_of goods_received = "GoodsReceived"
name_of placement_rejected = "PlacementRejected"
name_of stock_added = "StockAdded"
name_of reservation_rejected = "ReservationRejected"
name_of shipment_rejected = "ShipmentRejected"
name_of reservation_cancellation_rejected = "ReservationCancellationRejected"
name_of location_capacity_changed = "LocationCapacityChanged"
name_of stock_reserved = "StockReserved"
name_of stock_reservation_cancelled = "StockReservationCancelled"
name_of reservation_expired = "ReservationExpired"
name_of stock_shipped = "StockShipped"
name_of stock_adjusted = "StockAdjusted"
name_of stock_written_off = "StockWrittenOff"
name_of stock_moved = "StockMoved"
name_of (other s) = s

abbrev known : List EventType
known =
    reservation_requested ∷ reservation_cancellation_requested ∷ shipment_requested
    ∷ product_placement_assigned ∷ goods_received ∷ placement_rejected ∷ stock_added
    ∷ reservation_rejected ∷ shipment_rejected ∷ reservation_cancellation_rejected
    ∷ location_capacity_changed ∷ stock_reserved ∷ stock_reservation_cancelled ∷ reservation_expired
    ∷ stock_shipped ∷ stock_adjusted ∷ stock_written_off ∷ stock_moved ∷ []

abbrev among : String → List EventType → EventType
among s [] = other s
among s (k ∷ l) = if str_eq (name_of k) s then k else among s l

-- What a service makes of the name of an event in its inbox: the first case of its `switch`.
unfoldable pub type_of : String → EventType
type_of s = among s known

name_of-among : (s : String) (l : List EventType) → name_of (among s l) ≡ s
unfolding name_of
name_of-among s [] = refl
name_of-among s (k ∷ l) = elim (Bool-cases (str_eq (name_of k) s)) [
  | inl here ↦ rw here ((eq_iff (name_of k) s).0 here)
  | inr there ↦ rw there (name_of-among s l)
]

-- Every name stands for one kind of event, and is the name of that kind.
pub name_of-type_of : (s : String) → name_of (type_of s) ≡ s
unfolding type_of
name_of-type_of s = name_of-among s known
