-- ===== src/Inventory/Expiry.antt =====
-- A tick of `Work` expires what it selects: on consistent tables, releasing a confirmed reservation
-- cannot fail.
pub mod Tick
use logicore_wms.Base.{
  ℕ, String, Bool, true, false, Option, none, some, List, [], ◌∷◌, ◌-◌, ◌≤◌, ◌≡◌, refl, sym, ap,
  ◌∙◌, subst, arith, if◌then◌else◌, ◌==◌, Option-cases, Bool-cases, inl, inr,
}
use logicore_wms.Base.Rows.{find_row, update_row, update_row-Updated, find_row-key, All-find_row}
use logicore_wms.Platform.Types.{Context, Result, ok}
use logicore_wms.Platform.Tx.{Store, Tx, execute, pure, emit, continue}
use logicore_wms.Platform.Tx.Progress.{Passes, bind-Passes, execute-run, transaction-Passes}
use logicore_wms.Inventory.Stock.{Stock}
use logicore_wms.Inventory.Tables.{
  Tables, Status, confirmed, cancelled, expired, Reservation, Allocation, stock_key,
  reservation_key, find_stock, find_reservation, update_stock, update_reservation, with_stocks,
  with_reservations, unreserve, allocations_of,
}
use logicore_wms.Inventory.Tables.Rows.{update_stock-absent, update_reservation-then}
use logicore_wms.Inventory.Fulfil.{unreserve_all, with_status, free, release_row, release}
use logicore_wms.Inventory.Invariant.{Inv, IsWithin, reserved_at}
use logicore_wms.Inventory.Invariant.Close.{
  Sound, Sound-Inv, Lowered, units, units-allocations_of, units-reserved,
}
use logicore_wms.Inventory.Invariant.Release.{unreserve_all-Lowered}

-- A statement whose check passes on the row that is there.
update_row-passes :
    {A : Type 0} (key : A → ℕ) (k : ℕ) (f : A → Option A) (l : List A) {x y : A}
    → find_row key k l ≡ some x
    → f x ≡ some y
    → (l' : List A) × (update_row key k f l ≡ some l')
unfolding find_row update_row
update_row-passes key k f [] found e = absurd (cc)
update_row-passes key k f (z ∷ l) {x} {y} found e = elim (Bool-cases (key z == k)) [
  | inl here ↦
      let same : z ≡ x = ground (arith, found, here) in (y ∷ l, rw (here, ap f same ∙ e) refl)
  | inr there ↦
      let (l', q) = update_row-passes key k f l (rw there at found) e in
      (z ∷ l', rw (there, q) refl)
]

unreserve-passes :
    (n : ℕ) (x : Stock) → IsWithin x → n ≤ x.reserved → (y : Stock) × (unreserve n x ≡ some y)
unreserve-passes n x w h = (record x { reserved = x.reserved - n }, ground (arith, w, h))

update_stock-passes :
    (a : Allocation) (t : Tables)
    → Sound t
    → a.quantity ≤ reserved_at a.stock_id t.stocks
    → (t' : Tables) × (update_stock a.stock_id (unreserve a.quantity) t ≡ some t')
unfolding update_stock
update_stock-passes a t v h = elim (Option-cases (find_stock a.stock_id t)) [
  | inl absent ↦ (t, update_stock-absent a.stock_id (unreserve a.quantity) t absent)
  | inr (x, found) ↦
      let w = All-find_row stock_key IsWithin a.stock_id t.stocks v.within found in
      let (y, e) = unreserve-passes a.quantity x w (ground (arith, h, found)) in
      let (l, q) = update_row-passes stock_key a.stock_id (unreserve a.quantity) t.stocks found e in
      (record t { stocks = l }, ap (with_stocks t) q)
]

unreserve_all-passes :
    (l : List Allocation) (s : Store Tables)
    → Sound s.tables
    → ((j : ℕ) → units j l ≤ reserved_at j s.tables.stocks)
    → (s' : Store Tables) × (unreserve_all l s ≡ (ok tt, s'))
unfolding unreserve_all
unreserve_all-passes [] s v bound = (s, refl)
unreserve_all-passes (a ∷ l) s v bound =
    let (t, e) = update_stock-passes a s.tables v (enough a l (bound a.stock_id)) in
    let run = execute-run (update_stock a.stock_id (unreserve a.quantity)) s e in
    let one : unreserve_all (a ∷ []) s ≡ (ok tt, record s { tables = t }) =
      ap (λ r. continue r (λ _. pure tt)) run in
    let d = unreserve_all-Lowered (a ∷ []) s v (λ j. first a l j (bound j)) one in
    let (s', q) =
      unreserve_all-passes l (record s { tables = t }) d.sound
        (λ j. omega (arith, bound j, d.lowered j)) in
    (s', ap (λ r. continue r (λ _. unreserve_all l)) run ∙ q)
  where
    enough :
        (a : Allocation) (l : List Allocation) {n : ℕ}
        → units a.stock_id (a ∷ l) ≤ n
        → a.quantity ≤ n
    enough a l h = ground (arith, h)

    first :
        (a : Allocation) (l : List Allocation) (j : ℕ) {n : ℕ}
        → units j (a ∷ l) ≤ n
        → units j (a ∷ []) ≤ n
    first a l j h = omega (arith, h)

-- What is reserved can be taken back.
unreserve_all-Passes :
    (l : List Allocation) (s : Store Tables)
    → Sound s.tables
    → ((j : ℕ) → units j l ≤ reserved_at j s.tables.stocks)
    → Passes (λ s'. Lowered l s.tables s'.tables) (unreserve_all l) s
unreserve_all-Passes l s v bound =
    let (s', e) = go l s v bound in (tt, s', e, unreserve_all-Lowered l s v bound e)
  where
    go :
        (l : List Allocation) (s : Store Tables)
        → Sound s.tables
        → ((j : ℕ) → units j l ≤ reserved_at j s.tables.stocks)
        → (s' : Store Tables) × (unreserve_all l s ≡ (ok tt, s'))
    go l s v bound = unreserve_all-passes l s v bound

status_found :
    (r : Reservation) (status : Status) (rows rows' : List Reservation)
    → find_row reservation_key r.id rows ≡ some r
    → update_row reservation_key r.id (with_status status) rows ≡ some rows'
    → find_row reservation_key r.id rows' ≡ some (record r { status = status })
status_found r status rows rows' found e =
    let (y, ey, u) =
      update_row-Updated reservation_key r.id (with_status status) rows (λ y q. ground arith) found
        e in
    ground (arith, u.finds r.id, ey)

-- A confirmed reservation that was found is released, and then it is not confirmed.
pub free-Passes :
    (c : Context) (id : String) (r : Reservation) (expiring : Bool) (s : Store Tables)
    → Inv s.tables
    → find_reservation r.id s.tables ≡ some r
    → r.status ≡ confirmed
    → Passes
        (λ s'.
          find_reservation r.id s'.tables
          ≡ some (record r { status = if expiring then expired else cancelled }))
        (free c id r expiring)
        s
unfolding free emit update_reservation
free-Passes c id r expiring s v found live =
    let l = allocations_of r.id s.tables in
    let status = if expiring then expired else cancelled in
    let all = λ (j : ℕ). units-allocations_of j r.id s.tables in
    let (_, s1, e1, d) =
      unreserve_all-Passes l s (Sound-Inv v) (units-reserved r.id l v found live all) in
    let found1 =
      subst (λ rows. find_row reservation_key r.id rows ≡ some r) (sym d.reservations) found in
    let (rows, e2) =
      update_row-passes reservation_key r.id (with_status status) s1.tables.reservations found1
        refl in
    bind-Passes (unreserve_all l) _ s e1 (
      bind-Passes (execute (update_reservation r.id (with_status status))) _ s1
        (execute-run (update_reservation r.id (with_status status)) s1
          (ap (with_reservations s1.tables) e2))
        (tt, _, refl, status_found r status s1.tables.reservations rows found1 e2))
