-- ===== src/Inventory/Invariant/Claims.antt =====
-- How the reserved units of the lots keep up with the allocations of confirmed reservations.
use logicore_wms.Base.{
  ℕ, true, false, none, List, [], ◌∷◌, ◌+◌, ◌≡◌, refl, ap, ◌==◌, arith, sum_by, keep, All, is_some,
  if◌then◌else◌, ◌&&◌,
}
use logicore_wms.Base.Rows.{Updated, find_row}
use logicore_wms.Inventory.Stock.{Stock}
use logicore_wms.Inventory.Tables.{Reservation, Allocation, confirmed, stock_key, reservation_key}
use logicore_wms.Inventory.Fulfil.{is_status}
use logicore_wms.Inventory.Invariant.{reserved_at, is_live, claim_of, claims}

-- What the allocations of reservation `r` in a list hold of lot `k`, whatever its status.
abbrev pub share_of : ℕ → ℕ → Allocation → ℕ
share_of r k a = if a.stock_id == k && a.reservation_id == r then a.quantity else 0

abbrev pub share : ℕ → ℕ → List Allocation → ℕ
share r k = sum_by (share_of r k)

-- A change of lot `k` alone changes what is reserved of it alone.
pub reserved_at-Updated :
    {k : ℕ} {stocks stocks' : List Stock} {x y : Stock}
    → Updated stock_key k stocks stocks' x y
    → (j : ℕ) → reserved_at j stocks' ≡ (if k == j then y.reserved else reserved_at j stocks)
reserved_at-Updated {k} u j = ground (arith, u.finds j)

-- Reservations whose rows agree where it matters have the same claims.
claims-same :
    (k : ℕ) (rows rows' : List Reservation) (l : List Allocation)
    → All (λ a. is_live a.reservation_id rows' ≡ is_live a.reservation_id rows) l
    → claims k rows' l ≡ claims k rows l
claims-same k rows rows' [] h = refl
claims-same k rows rows' (a ∷ l) (e, h) =
    rw e (ap (◌+◌ (claim_of k rows a)) (claims-same k rows rows' l h))

-- A new row for a reservation that no allocation refers to changes no claim.
pub claims-insert :
    (k : ℕ) (r : Reservation) (rows : List Reservation) (l : List Allocation)
    → find_row reservation_key r.id rows ≡ none
    → All (λ a. is_some (find_row reservation_key a.reservation_id rows) ≡ true) l
    → claims k (r ∷ rows) l ≡ claims k rows l
unfolding find_row
claims-insert k r rows [] new h = refl
claims-insert k r rows (a ∷ l) new (e, h) = ground (arith, claims-insert k r rows l new h)

-- A reservation that stops to be confirmed gives up its share, and no more.
pub claims-end :
    (k r : ℕ) (rows rows' : List Reservation) (l : List Allocation) {x y : Reservation}
    → Updated reservation_key r rows rows' x y
    → is_status x.status confirmed ≡ true
    → is_status y.status confirmed ≡ false
    → claims k rows' l + share r k l ≡ claims k rows l
claims-end k r rows rows' [] u ex ey = refl
claims-end k r rows rows' (a ∷ l) u ex ey =
    ground (arith, claims-end k r rows rows' l u ex ey, u.finds a.reservation_id, u.found)

-- The share is that of the reservation's own allocations.
pub share-keep :
    (r k : ℕ) (l : List Allocation) → share r k (keep (λ a. a.reservation_id == r) l) ≡ share r k l
share-keep r k [] = refl
share-keep r k (a ∷ l) = ground (arith, share-keep r k l)
