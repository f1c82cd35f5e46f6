-- ===== src/Inventory/Life.antt =====
-- The life of a reservation, apart from lots, ledgers and events: the states that it has and the moves
-- between them.
pub mod Untouched
pub mod Steps
pub mod Reserve
pub mod Fulfil
pub mod Runs
use logicore_wms.Base.{ℕ, false, true, Option, none, some, List, ◌≡◌, refl, not, arith}
use logicore_wms.Base.Rows.{find_row}
use logicore_wms.Inventory.Tables.{
  Status, Reservation, Tables, confirmed, rejected, cancelled, expired, completed, reservation_key,
}
use logicore_wms.Inventory.Fulfil.{is_status}

-- The status and the shipment.
abbrev pub Phase : Type 0
Phase = Status × Option ℕ

abbrev pub phase_of : Option Reservation → Option Phase
phase_of none = none
phase_of (some r) = some (r.status, r.shipment_id)

abbrev pub phase : ℕ → List Reservation → Option Phase
phase k l = phase_of (find_row reservation_key k l)

-- The moves of a reservation: it is made or refused, and once it is made it is cancelled, it expires, or it
-- is completed by a shipment.
pub data Move : Option Phase → Option Phase → Type 0 where
  confirm : Move none (some (confirmed, none))
  refuse : Move none (some (rejected, none))
  cancel : (o : Option ℕ) → Move (some (confirmed, o)) (some (cancelled, o))
  expire : (o : Option ℕ) → Move (some (confirmed, o)) (some (expired, o))
  complete :
      (o : Option ℕ) (shipment : ℕ) → Move (some (confirmed, o)) (some (completed, some shipment))

-- Any number of moves.
pub data Course : Option Phase → Option Phase → Type 0 where
  rest : (a : Option Phase) → Course a a
  move : {a b d : Option Phase} → Move a b → Course b d → Course a d

pub Course-trans : {a b d : Option Phase} → Course a b → Course b d → Course a d
Course-trans (rest a) k = k
Course-trans (move m h) k = move m (Course-trans h k)

-- Every reservation has moved as it may.
abbrev pub Evolves : List Reservation → List Reservation → Type 0
Evolves l l' = (k : ℕ) → Course (phase k l) (phase k l')
