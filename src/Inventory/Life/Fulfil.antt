-- ===== src/Inventory/Life/Fulfil.antt =====
-- `release` and `ship` as moves.
use logicore_wms.Base.{
  ℕ, String, Bool, some, ◌≡◌, refl, sym, ap, subst, arith, leb, true, false, not, str_eq, ◌&&◌,
  ◌||◌, if◌then◌else◌,
}
use logicore_wms.Base.Rows.{find_row, find_row-key, some_inj}
use logicore_wms.Platform.Types.{Context, ok}
use logicore_wms.Platform.Json.{Payload, string_at}
use logicore_wms.Platform.Tx.{Store, pure}
use logicore_wms.Platform.Tx.Steps.{
  throw_if-then, or_throw-then, execute-then, bind-then, if-then, pure-tables, emit-tables,
}
use logicore_wms.Inventory.Tables.{
  Tables, Status, Reservation, confirmed, rejected, cancelled, expired, completed, reservation_key,
  find_reservation, update_reservation, allocations_of,
}
use logicore_wms.Inventory.Tables.Rows.{update_reservation-then}
use logicore_wms.Inventory.Capacity.{Catalog}
use logicore_wms.Base.Sort.{sort_by}
use logicore_wms.Inventory.Fulfil.{
  by_stock, unreserve_all, with_status, free, release_row, release, ship_lines, ship_row, ship,
  is_status, is_shipment, complete,
}
use logicore_wms.Inventory.Life.{Evolves, Move, cancel, expire}
use logicore_wms.Inventory.Life as Life
use logicore_wms.Inventory.Life.Untouched.{
  Untouched-reservations, unreserve_all-Untouched, ship_lines-Untouched,
}
use logicore_wms.Inventory.Life.Steps.{Evolves-same, Evolves-update}

-- A row that is found makes one move in the statement that updates it.
updated-Evolves :
    (r : Reservation) (f : Reservation → Reservation) (t : Tables) {t' : Tables}
    → find_reservation r.id t ≡ some r
    → (f r).id ≡ r.id
    → Move (some (r.status, r.shipment_id)) (some ((f r).status, (f r).shipment_id))
    → update_reservation r.id (λ r. some (f r)) t ≡ some t'
    → Evolves t.reservations t'.reservations
updated-Evolves r f t {t'} found keeps m h =
    update_reservation-then r.id (λ r. some (f r)) t found
      (λ y q. subst (λ (y : Reservation). y.id ≡ r.id) (some_inj q) keeps) h
      λ y ry u stay. Evolves-update r.id r y u (
        subst
          (λ (y : Reservation).
            Move (some (r.status, r.shipment_id)) (some (y.status, y.shipment_id)))
          (some_inj ry) m)

freed :
    (r : Reservation) (expiring : Bool)
    → r.status ≡ confirmed
    → Move
        (some (r.status, r.shipment_id))
        (some (if expiring then expired else cancelled, r.shipment_id))
freed r true e =
    subst (λ s. Move (some (s, r.shipment_id)) (some (expired, r.shipment_id))) (sym e)
      (expire r.shipment_id)
freed r false e =
    subst (λ s. Move (some (s, r.shipment_id)) (some (cancelled, r.shipment_id))) (sym e)
      (cancel r.shipment_id)

completed_from :
    (r : Reservation) (shipment : ℕ)
    → is_status r.status confirmed ≡ true
    → Move (some (r.status, r.shipment_id)) (some (completed, some shipment))
completed_from r shipment e =
    subst (λ s. Move (some (s, r.shipment_id)) (some (completed, some shipment))) (live r.status e)
      (Life.complete r.shipment_id shipment)
  where
    live : (st : Status) → is_status st confirmed ≡ true → confirmed ≡ st
    live confirmed e = refl
    live rejected e = cc
    live cancelled e = cc
    live expired e = cc
    live completed e = cc

module _ (c : Context) (s : Store Tables) {s' : Store Tables} where
  unmoved : pure tt s ≡ (ok tt, s') → Evolves s.tables.reservations s'.tables.reservations
  unmoved h = Evolves-same (ap (λ (s : Store Tables). s.tables.reservations) (pure-tables s tt h))

  free-Evolves :
      (id : String) (r : Reservation) (expiring : Bool)
      → find_reservation r.id s.tables ≡ some r
      → r.status ≡ confirmed
      → free c id r expiring s ≡ (ok tt, s')
      → Evolves s.tables.reservations s'.tables.reservations
  unfolding free
  free-Evolves id r expiring found live h =
      bind-then s (unreserve_all (allocations_of r.id s.tables)) _ h λ _ s1 h1 h.
        let same =
          Untouched-reservations (unreserve_all-Untouched (allocations_of r.id s.tables)) s tt h1 in
        let status = if expiring then expired else cancelled in
        execute-then s1 (update_reservation r.id (with_status status)) _ h λ t2 e2 h.
          subst (λ (t : Tables). Evolves s.tables.reservations t.reservations)
            (sym (emit-tables (record s1 { tables = t2 }) c _ _ h))
            (subst (λ l. Evolves l t2.reservations) same
              (updated-Evolves r (λ r. record r { status = status }) s1.tables
                (subst (λ rows. find_row reservation_key r.id rows ≡ some r) (sym same) found) refl
                (freed r expiring live) e2))

  release_row-Evolves :
      (id : String) (r : Reservation) (expiring : Bool) (status : Status)
      → find_reservation r.id s.tables ≡ some r
      → r.status ≡ status
      → release_row c id r expiring status s ≡ (ok tt, s')
      → Evolves s.tables.reservations s'.tables.reservations
  release_row-Evolves id r expiring confirmed found e h = free-Evolves id r expiring found e h
  release_row-Evolves id r expiring completed found e h = absurd (cc)
  release_row-Evolves id r expiring rejected found e h = unmoved h
  release_row-Evolves id r expiring cancelled found e h = unmoved h
  release_row-Evolves id r expiring expired found e h = unmoved h

  pub release-Evolves :
      (id : String) (expiring : Bool)
      → release c id expiring s ≡ (ok tt, s')
      → Evolves s.tables.reservations s'.tables.reservations
  unfolding release
  release-Evolves id expiring h = or_throw-then s (c.cast id) _ _ h λ k _ h.
      or_throw-then s (find_reservation k s.tables) _ _ h λ r found h.
        let key : r.id ≡ k = find_row-key reservation_key k s.tables.reservations found in
        release_row-Evolves id r expiring r.status
          (subst (λ j. find_reservation j s.tables ≡ some r) (sym key) found) refl h

  module _ (cat : Catalog) (payload : Payload) where
    ship_row-Evolves :
        (r : Reservation)
        → find_reservation r.id s.tables ≡ some r
        → ship_row c cat payload r s ≡ (ok tt, s')
        → Evolves s.tables.reservations s'.tables.reservations
    unfolding ship_row
    ship_row-Evolves r found h =
        throw_if-then s (not (is_status r.status confirmed) || leb r.expires_at c.now) _ _ h
          λ active h.
            throw_if-then s (not (str_eq (c.text r.warehouse_id) (string_at payload "warehouseId")))
              _ _ h
              λ _ h.
                let l = sort_by by_stock (allocations_of r.id s.tables) in
                bind-then s (ship_lines c cat l) _ h λ items s1 h1 h.
                  let same = Untouched-reservations (ship_lines-Untouched c cat l) s items h1 in
                  or_throw-then s1 (c.cast (string_at payload "shipmentId")) _ _ h λ shipment _ h.
                    execute-then s1 (update_reservation r.id (complete shipment)) _ h λ t2 e2 h.
                      subst (λ (t : Tables). Evolves s.tables.reservations t.reservations)
                        (sym (emit-tables (record s1 { tables = t2 }) c _ _ h))
                        (subst (λ l. Evolves l t2.reservations) same
                          (updated-Evolves r
                            (λ r. record r { status = completed; shipment_id = some shipment })
                            s1.tables
                            (subst (λ rows. find_row reservation_key r.id rows ≡ some r) (sym same)
                              found)
                            refl (completed_from r shipment (ground (arith, active))) e2))

    pub ship-Evolves :
        ship c cat payload s ≡ (ok tt, s') → Evolves s.tables.reservations s'.tables.reservations
    unfolding ship
    ship-Evolves h = or_throw-then s (c.cast (string_at payload "reservationId")) _ _ h λ k _ h.
        or_throw-then s (find_reservation k s.tables) _ _ h λ r found h.
          let key : r.id ≡ k = find_row-key reservation_key k s.tables.reservations found in
          if-then s
            (is_status r.status completed
              && is_shipment c r.shipment_id (string_at payload "shipmentId"))
            (pure tt) (ship_row c cat payload r) h (λ _ h. unmoved h)
            (λ _ h.
              ship_row-Evolves r (subst (λ j. find_reservation j s.tables ≡ some r) (sym key) found)
                h)
