-- ===== src/Inventory/Invariant/Reserve.antt =====
-- `reserve` keeps the invariant, and gives the reservation what it asks for.
mod Lines
pub mod Products
use logicore_wms.Base.{
  ◌+◌, ℕ, Bool, true, false, Option, none, some, List, [], ◌∷◌, ◌≤◌, ◌≡◌, refl, sym, ap, ◌∙◌, subst,
  arith, sum_by, is_some, All, ◌⊎◌, inl, inr, leb, Bool-cases,
}
use logicore_wms.Base.Int.{pos_part}
use logicore_wms.Base.Rows.{find_row}
use logicore_wms.Platform.Types.{Context, ok, id_check}
use logicore_wms.Platform.Json.{Payload, get, string_at}
use logicore_wms.Platform.Tx.{Store, pure}
use logicore_wms.Platform.Tx.Steps.{
  lift-then, throw_if-then, or_throw-then, execute-then, bind-then, if-then, pure-tables,
  emit-tables,
}
use logicore_wms.Inventory.Stock.{Line}
use logicore_wms.Inventory.Tables.{
  Tables, Reservation, Allocation, confirmed, reservation_key, find_reservation, insert_reservation,
}
use logicore_wms.Inventory.Lots.{decode_lines}
use logicore_wms.Inventory.Reserve.{reserve_lines, reserve_new, reserve, reservation_row, is_empty}
use logicore_wms.Inventory.Invariant.{Inv, is_live, reserved_at}
use logicore_wms.Inventory.Invariant.Claims.{share, claims-insert}
use logicore_wms.Inventory.Invariant.Reserve.Lines.{held, Drawn, reserve_lines-Drawn}

known-insert :
    (row : Reservation) (rows : List Reservation) (l : List Allocation)
    → All (λ a. is_some (find_row reservation_key a.reservation_id rows) ≡ true) l
    → All (λ a. is_some (find_row reservation_key a.reservation_id (row ∷ rows)) ≡ true) l
unfolding find_row
known-insert row rows [] h = tt
known-insert row rows (a ∷ l) (e, h) = (ground arith, known-insert row rows l h)

-- A row for a reservation that had none keeps the invariant.
pub Inv-reservation :
    {t : Tables} (row : Reservation)
    → Inv t
    → find_reservation row.id t ≡ none
    → Inv (record t { reservations = row ∷ t.reservations })
Inv-reservation {t} row v new = record {
  backed = λ j. v.backed j ∙ sym (claims-insert j row t.reservations t.allocations new v.known);
  weights = v.weights;
  volumes = v.volumes;
  known = known-insert row t.reservations t.allocations v.known;
  within = v.within;
}

-- Nothing is allocated to a reservation that has no row.
held_unknown :
    (r : ℕ) (rows : List Reservation) (l : List Allocation)
    → find_row reservation_key r rows ≡ none
    → All (λ a. is_some (find_row reservation_key a.reservation_id rows) ≡ true) l
    → held r l ≡ 0
held_unknown r rows [] new h = refl
held_unknown r rows (a ∷ l) new (e, h) = ground (arith, held_unknown r rows l new h)

share_unknown :
    (r k : ℕ) (rows : List Reservation) (l : List Allocation)
    → find_row reservation_key r rows ≡ none
    → All (λ a. is_some (find_row reservation_key a.reservation_id rows) ≡ true) l
    → share r k l ≡ 0
share_unknown r k rows [] new h = refl
share_unknown r k rows (a ∷ l) new (e, h) = ground (arith, share_unknown r k rows l new h)

-- The payload's reservation is confirmed and new, and has been allocated all units of its lines; of
-- every lot, what is reserved has grown by what the reservation has of it.
pub record Reserved (c : Context) (payload : Payload) (t t' : Tables) : Type 0 where
  pub id : ℕ
  pub reads : c.cast (string_at payload "reservationId") ≡ some id
  pub new : find_reservation id t ≡ none
  pub confirms : is_live id t'.reservations ≡ true
  pub lines : List Line
  pub decodes : decode_lines (get "items" payload) ≡ some lines
  pub holds : held id t'.allocations ≡ sum_by (λ line. pos_part line.quantity) lines
  pub shares :
      (k : ℕ) → reserved_at k t'.stocks ≡ reserved_at k t.stocks + share id k t'.allocations

-- What a successful `reserve` has done: nothing, for a reservation that has a row already, or else
-- the reservation.
abbrev pub Outcome : Context → Payload → Tables → Tables → Type 0
Outcome c payload t t' = (t' ≡ t) ⊎ Reserved c payload t t'

module _ (c : Context) (payload : Payload) where
  Reserved-lines :
      (r : ℕ) (row : Reservation) (lines : List Line) {n : ℕ} {t t1 : Tables}
      → c.cast (string_at payload "reservationId") ≡ some r
      → row.id ≡ r
      → row.status ≡ confirmed
      → Inv t
      → find_reservation r t ≡ none
      → decode_lines (get "items" payload) ≡ some lines
      → n ≡ sum_by (λ line. pos_part line.quantity) lines
      → Drawn r n (record t { reservations = row ∷ t.reservations }) t1
      → Reserved c payload t t1
  unfolding find_row
  Reserved-lines r row lines {n} {t} {t1} reads key status v new decodes sum d = record {
    id = r;
    reads = reads;
    new = new;
    confirms = ground (arith, d.reservations);
    lines = lines;
    decodes = decodes;
    holds = omega (arith, d.taken, sum, held_unknown r t.reservations t.allocations new v.known);
    shares =
        λ k. omega (arith, d.shares k, share_unknown r k t.reservations t.allocations new v.known);
  }

  pub insert_reservation-then :
      {G : Type 0} (row : Reservation) (t : Tables) {t' : Tables}
      → insert_reservation row t ≡ some t'
      → (find_reservation row.id t ≡ none
          → t' ≡ record t { reservations = row ∷ t.reservations }
          → G)
      → G
  unfolding insert_reservation
  insert_reservation-then row t h go = go (ground arith) (ground arith)

  live-insert :
      (row : Reservation) (rows : List Reservation)
      → row.status ≡ confirmed
      → is_live row.id (row ∷ rows) ≡ true
  unfolding find_row
  live-insert row rows e = ground (arith, e)

  reserve_new-Reserved :
      (r : ℕ) (s : Store Tables) {s' : Store Tables}
      → c.cast (string_at payload "reservationId") ≡ some r
      → Inv s.tables
      → reserve_new c payload r s ≡ (ok tt, s')
      → Inv s'.tables × Reserved c payload s.tables s'.tables
  unfolding reserve_new
  reserve_new-Reserved r s {s'} reads v h =
      or_throw-then s (c.parse_time (string_at payload "expiresAt")) _ _ h λ expires _ h.
        throw_if-then s (leb expires c.now) _ _ h λ _ h.
          or_throw-then s (decode_lines (get "items" payload)) _ _ h λ lines decodes h.
            throw_if-then s (is_empty lines) _ _ h λ _ h.
              or_throw-then s (c.cast (string_at payload "warehouseId")) _ _ h λ warehouse _ h.
                execute-then s (insert_reservation (reservation_row r warehouse expires)) _ h
                  λ t1 e1 h.
                    insert_reservation-then (reservation_row r warehouse expires) s.tables e1
                      λ new stay.
                        bind-then (record s { tables = t1 }) (reserve_lines c r warehouse [] lines)
                          _ h
                          λ _ s2 h2 h.
                            let row = reservation_row r warehouse expires in
                            let v1 = subst Inv (sym stay) (Inv-reservation row v new) in
                            let live =
                              subst (λ (t : Tables). is_live r t.reservations ≡ true) (sym stay)
                                (live-insert row s.tables.reservations refl) in
                            let d =
                              reserve_lines-Drawn r c warehouse lines [] (record s { tables = t1 })
                                v1 live h2 in
                            let same = emit-tables s2 c _ _ h in
                            (
                              subst Inv (sym same) d.inv,
                              subst (Reserved c payload s.tables) (sym same) (
                                  Reserved-lines r row lines reads refl refl v new decodes refl (
                                    subst
                                      (λ t.
                                        Drawn r (sum_by (λ line. pos_part line.quantity) lines) t
                                          s2.tables)
                                      stay d)),
                            )

  reserve-Outcome :
      (s : Store Tables) {s' : Store Tables}
      → Inv s.tables
      → reserve c payload s ≡ (ok tt, s')
      → Inv s'.tables × Outcome c payload s.tables s'.tables
  unfolding reserve
  reserve-Outcome s v h = lift-then s (id_check c (string_at payload "reservationId")) _ h λ _ _ h.
      or_throw-then s (c.cast (string_at payload "reservationId")) _ _ h λ r reads h.
        if-then s (is_some (find_reservation r s.tables)) (pure tt) (reserve_new c payload r) h
          (λ _ h.
            let same = ap (λ (s : Store Tables). s.tables) (pure-tables s tt h) in
            (subst Inv (sym same) v, inl same))
          (λ _ h. let (v', done) = reserve_new-Reserved r s reads v h in (v', inr done))

  -- A reservation that succeeds keeps the invariant.
  pub reserve-Inv :
      (s : Store Tables) {s' : Store Tables}
      → Inv s.tables
      → reserve c payload s ≡ (ok tt, s')
      → Inv s'.tables
  reserve-Inv s v h = (reserve-Outcome s v h).0

  -- A call of `reserve` that succeeds on consistent tables changes nothing, or has made a reservation.
  pub reserve-Reserved :
      (s : Store Tables) {s' : Store Tables}
      → Inv s.tables
      → reserve c payload s ≡ (ok tt, s')
      → (s'.tables ≡ s.tables) ⊎ Reserved c payload s.tables s'.tables
  reserve-Reserved s v h = (reserve-Outcome s v h).1
