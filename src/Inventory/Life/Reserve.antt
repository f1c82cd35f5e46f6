-- ===== src/Inventory/Life/Reserve.antt =====
-- `reserve`, and the row of a reservation that is refused, as moves.
use logicore_wms.Base.{
  ℕ, none, some, [], ◌∷◌, ◌≡◌, sym, ap, subst, arith, leb, is_some, Bool-cases, inl, inr,
}
use logicore_wms.Platform.Types.{Context, ok, id_check}
use logicore_wms.Platform.Json.{Payload, get, string_at}
use logicore_wms.Platform.Tx.{Store, pure}
use logicore_wms.Platform.Tx.Steps.{
  lift-then, throw_if-then, or_throw-then, execute-then, bind-then, if-then, pure-tables,
  emit-tables, execute-end,
}
use logicore_wms.Inventory.Tables.{
  Tables, Reservation, insert_reservation, insert_rejected, find_reservation,
}
use logicore_wms.Inventory.Lots.{decode_lines}
use logicore_wms.Inventory.Reserve.{reserve_lines, reserve_new, reserve, reservation_row, is_empty}
use logicore_wms.Inventory.Service.{record_rejected, rejected_row}
use logicore_wms.Inventory.Life.{Evolves, Move, confirm, refuse}
use logicore_wms.Inventory.Life.Untouched.{Untouched-reservations, reserve_lines-Untouched}
use logicore_wms.Inventory.Life.Steps.{Evolves-same, Evolves-insert}

insert_reservation-Evolves :
    (row : Reservation) (t : Tables) {t' : Tables}
    → Move none (some (row.status, row.shipment_id))
    → insert_reservation row t ≡ some t'
    → Evolves t.reservations t'.reservations
unfolding insert_reservation
insert_reservation-Evolves row t {t'} m h =
    let e : row ∷ t.reservations ≡ t'.reservations = ground arith in
    subst (Evolves t.reservations) e (Evolves-insert row t.reservations (ground arith) m)

insert_rejected-Evolves :
    (row : Reservation) (t : Tables) {t' : Tables}
    → Move none (some (row.status, row.shipment_id))
    → insert_rejected row t ≡ some t'
    → Evolves t.reservations t'.reservations
unfolding insert_rejected
insert_rejected-Evolves row t {t'} m h = elim (Bool-cases (is_some (find_reservation row.id t))) [
  | inl old ↦ Evolves-same (ground (arith, old))
  | inr new ↦
      let e : row ∷ t.reservations ≡ t'.reservations = ground (arith, new) in
      subst (Evolves t.reservations) e (Evolves-insert row t.reservations (ground (arith, new)) m)
]

module _ (c : Context) (payload : Payload) (s : Store Tables) {s' : Store Tables} where
  reserve_new-Evolves :
      (r : ℕ)
      → reserve_new c payload r s ≡ (ok tt, s')
      → Evolves s.tables.reservations s'.tables.reservations
  unfolding reserve_new
  reserve_new-Evolves r h =
      or_throw-then s (c.parse_time (string_at payload "expiresAt")) _ _ h λ expires _ h.
        throw_if-then s (leb expires c.now) _ _ h λ _ h.
          or_throw-then s (decode_lines (get "items" payload)) _ _ h λ lines decodes h.
            throw_if-then s (is_empty lines) _ _ h λ _ h.
              or_throw-then s (c.cast (string_at payload "warehouseId")) _ _ h λ warehouse _ h.
                execute-then s (insert_reservation (reservation_row r warehouse expires)) _ h
                  λ t1 e1 h.
                    bind-then (record s { tables = t1 }) (reserve_lines c r warehouse [] lines) _ h
                      λ _ s2 h2 h.
                        let same =
                          Untouched-reservations (reserve_lines-Untouched c r warehouse [] lines) _
                            tt h2 in
                        subst (λ (t : Tables). Evolves s.tables.reservations t.reservations)
                          (sym (emit-tables s2 c _ _ h))
                          (subst (Evolves s.tables.reservations) (sym same) (
                            insert_reservation-Evolves (reservation_row r warehouse expires)
                              s.tables confirm e1))

  pub reserve-Evolves :
      reserve c payload s ≡ (ok tt, s') → Evolves s.tables.reservations s'.tables.reservations
  unfolding reserve
  reserve-Evolves h = lift-then s (id_check c (string_at payload "reservationId")) _ h λ _ _ h.
      or_throw-then s (c.cast (string_at payload "reservationId")) _ _ h λ r reads h.
        if-then s (is_some (find_reservation r s.tables)) (pure tt) (reserve_new c payload r) h
          (λ _ h.
            Evolves-same (ap (λ (s : Store Tables). s.tables.reservations) (pure-tables s tt h)))
          (λ _ h. reserve_new-Evolves r h)

  pub record_rejected-Evolves :
      record_rejected c payload s ≡ (ok tt, s')
      → Evolves s.tables.reservations s'.tables.reservations
  unfolding record_rejected
  record_rejected-Evolves h =
      or_throw-then s (c.cast (string_at payload "reservationId")) _ _ h λ r _ h.
        or_throw-then s (c.cast (string_at payload "warehouseId")) _ _ h λ warehouse _ h.
          let (t, e, stay) = execute-end s (insert_rejected (rejected_row c r warehouse)) h in
          subst (λ (t : Tables). Evolves s.tables.reservations t.reservations) (sym stay)
            (insert_rejected-Evolves (rejected_row c r warehouse) s.tables refuse e)
