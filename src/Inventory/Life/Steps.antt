-- ===== src/Inventory/Life/Steps.antt =====
-- One row that is inserted or updated, as a move of its reservation.
use logicore_wms.Base.{
  ℕ, Bool, true, false, none, some, List, ◌∷◌, ◌≡◌, refl, sym, ap, subst, subst₂, ◌==◌,
  if◌then◌else◌, ==_iff,
}
use logicore_wms.Base.Rows.{find_row, Updated}
use logicore_wms.Platform.Types.{ok}
use logicore_wms.Platform.Tx.{Store, Tx}
use logicore_wms.Inventory.Tables.{Tables, Reservation, reservation_key}
use logicore_wms.Inventory.Life.{Move, Course, rest, move, Evolves, phase_of, phase}
use logicore_wms.Inventory.Life.Untouched.{Untouched, Untouched-reservations}

pub Evolves-same : {l l' : List Reservation} → l' ≡ l → Evolves l l'
Evolves-same {l} e = subst (Evolves l) (sym e) (λ k. rest (phase k l))

-- An action that changes no reservation.
pub Evolves-Untouched :
    {A : Type 0} {m : Tx Tables A}
    → Untouched m
    → (s : Store Tables) (a : A) {s' : Store Tables} → m s ≡ (ok a, s')
    → Evolves s.tables.reservations s'.tables.reservations
Evolves-Untouched u s a {s'} h = Evolves-same (Untouched-reservations u s a h)

-- A row that has become `y` after a move, and with it no other.
module _ (k : ℕ) (l l' : List Reservation) (y : Reservation)
    (m : Move (phase k l) (phase_of (some y))) where
  one_of :
      (b : Bool) (j : ℕ)
      → (k == j) ≡ b
      → find_row reservation_key j l' ≡ (if b then some y else find_row reservation_key j l)
      → Course (phase j l) (phase j l')
  one_of true j e f =
      subst₂ (λ i r. Course (phase i l) r) ((==_iff k j).0 e) (sym (ap phase_of f))
        (move m (rest (phase_of (some y))))
  one_of false j e f = subst (Course (phase j l)) (sym (ap phase_of f)) (rest (phase j l))

-- A row that was found makes one move.
pub Evolves-update :
    (k : ℕ) {l l' : List Reservation} (x y : Reservation)
    → Updated reservation_key k l l' x y
    → Move (phase_of (some x)) (phase_of (some y))
    → Evolves l l'
Evolves-update k {l} {l'} x y u m j =
    one_of k l l' y (subst (λ a. Move a (phase_of (some y))) (sym (ap phase_of u.found)) m) (k == j)
      j refl (u.finds j)

-- A new row makes the first move.
pub Evolves-insert :
    (row : Reservation) (l : List Reservation)
    → find_row reservation_key row.id l ≡ none
    → Move none (phase_of (some row))
    → Evolves l (row ∷ l)
unfolding find_row
Evolves-insert row l new m j =
    one_of row.id l (row ∷ l) row
      (subst (λ a. Move a (phase_of (some row))) (sym (ap phase_of new)) m) (row.id == j) j refl
      refl
