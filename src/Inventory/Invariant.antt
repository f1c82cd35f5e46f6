-- ===== src/Inventory/Invariant.antt =====
-- The invariant of the inventory's tables: what is reserved of a lot is what the confirmed
-- reservations have been allocated of it, and the ledger of a location is the load of its lots.
pub mod Ledgers
pub mod Claims
pub mod Parts
pub mod Place
pub mod Change
pub mod Close
pub mod Reserve
pub mod Filled
pub mod Release
pub mod Return
pub mod Ship
pub mod Handle
pub mod Runs
use logicore_wms.Base.{
  ℕ, Bool, true, false, Option, none, some, List, [], ◌∷◌, ◌*◌, ◌≤◌, ◌≡◌, ◌&&◌, ◌==◌, All, sum_by,
  is_some, if◌then◌else◌,
}
use logicore_wms.Base.Rows.{find_row}
use logicore_wms.Inventory.Stock.{Stock}
use logicore_wms.Inventory.Tables.{
  Tables, Status, Reservation, Allocation, confirmed, stock_key, reservation_key, find_stock,
  find_reservation,
}
use logicore_wms.Inventory.Fulfil.{is_status}
use logicore_wms.Inventory.Capacity.Ledger.{weight_at, volume_at}
use logicore_wms.Inventory.Changes.{billion}

abbrev pub is_located : ℕ → Option ℕ → Bool
is_located l none = false
is_located l (some k) = l == k

-- What a lot puts on a location, in units of weight or of volume.
abbrev pub load_of : (Stock → ℕ) → ℕ → Stock → ℕ
load_of unit l x = if is_located l x.location_id then x.quantity * unit x else 0

abbrev pub load : (Stock → ℕ) → ℕ → List Stock → ℕ
load unit l = sum_by (load_of unit l)

-- A ledger, as a function of the location, agrees with the lots.
abbrev pub IsBalanced : (ℕ → ℕ) → (Stock → ℕ) → List Stock → Type 0
IsBalanced ledger unit stocks = (l : ℕ) → ledger l ≡ load unit l stocks

abbrev pub reserved_of : Option Stock → ℕ
reserved_of none = 0
reserved_of (some x) = x.reserved

abbrev pub reserved_at : ℕ → List Stock → ℕ
reserved_at k stocks = reserved_of (find_row stock_key k stocks)

abbrev pub is_live_row : Option Reservation → Bool
is_live_row none = false
is_live_row (some r) = is_status r.status confirmed

abbrev pub is_live : ℕ → List Reservation → Bool
is_live r reservations = is_live_row (find_row reservation_key r reservations)

-- What an allocation holds of lot `k`: its quantity, while its reservation is confirmed.
abbrev pub claim_of : ℕ → List Reservation → Allocation → ℕ
claim_of k reservations a =
    if a.stock_id == k && is_live a.reservation_id reservations then a.quantity else 0

abbrev pub claims : ℕ → List Reservation → List Allocation → ℕ
claims k reservations = sum_by (claim_of k reservations)

-- Every reserved unit is claimed by a confirmed reservation, and every claim is reserved.
abbrev pub IsBacked : List Stock → List Reservation → List Allocation → Type 0
IsBacked stocks reservations allocations =
    (k : ℕ) → reserved_at k stocks ≡ claims k reservations allocations

abbrev pub IsWithin : Stock → Type 0
IsWithin x = (x.reserved ≤ x.quantity) × (x.quantity ≤ billion)

abbrev pub weight_unit : Stock → ℕ
weight_unit x = x.weight

abbrev pub volume_unit : Stock → ℕ
volume_unit x = x.volume

pub record Inv (t : Tables) : Type 0 where
  pub backed : IsBacked t.stocks t.reservations t.allocations
  pub weights : IsBalanced (λ l. weight_at l t) weight_unit t.stocks
  pub volumes : IsBalanced (λ l. volume_at l t) volume_unit t.stocks
  pub known : All (λ a. is_some (find_reservation a.reservation_id t) ≡ true) t.allocations
  pub within : All IsWithin t.stocks
