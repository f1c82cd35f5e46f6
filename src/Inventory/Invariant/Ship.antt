-- ===== src/Inventory/Invariant/Ship.antt =====
-- What `ship` does to the lots and to the reservation.
mod Lines
use logicore_wms.Base.{
  ℕ, true, Option, none, some, ◌⊎◌, inl, inr, List, [], ◌∷◌, ◌+◌, ◌≡◌, sym, ap, ◌∙◌, subst, subst₂,
  All, is_some, arith, not, leb, ◌||◌, ◌&&◌, str_eq,
}
use logicore_wms.Base.Int.{neg, pos_part, neg_part}
use logicore_wms.Base.Rows.{Updated, find_row, All-Updated, All-find_row, find_row-key, some_inj}
use logicore_wms.Platform.Types.{Context, ok}
use logicore_wms.Platform.Json.{Json, Items, Payload, string_at}
use logicore_wms.Platform.Tx.{Store, pure}
use logicore_wms.Platform.Tx.Steps.{
  or_throw-then, execute-then, bind-then, throw_if-then, if-then, pure-tables, emit-tables,
}
use logicore_wms.Inventory.Stock.{Stock}
use logicore_wms.Inventory.Tables.{
  Tables, confirmed, completed, Reservation, Allocation, stock_key, reservation_key, find_stock,
  find_reservation, update_stock, update_reservation, deduct, allocations_of,
}
use logicore_wms.Inventory.Tables.Rows.{stock-then, update_stock-then, update_reservation-then}
use logicore_wms.Inventory.Capacity.{Catalog, capacity}
use logicore_wms.Inventory.Capacity.Ledger.{Charged, capacity-Charged, weight_at, volume_at}
use logicore_wms.Base.Sort.{sort_by}
use logicore_wms.Inventory.Fulfil.{
  is_status, is_shipment, has_expired, by_stock, ship_line, ship_lines, complete, ship_row, ship,
}
use logicore_wms.Inventory.Invariant.{Inv, IsWithin, reserved_at, weight_unit, volume_unit}
use logicore_wms.Inventory.Invariant.Ledgers.{IsBalanced-resize}
use logicore_wms.Inventory.Invariant.Parts.{weights-IsCharged, volumes-IsCharged}
use logicore_wms.Inventory.Invariant.Claims.{share, reserved_at-Updated}
use logicore_wms.Inventory.Invariant.Close.{
  Sound, Sound-Inv, Lowered, Lowered-none, Lowered-cons, units, units-allocations_of, units-sort,
  Inv-close,
}
use logicore_wms.Inventory.Invariant.Ship.Lines.{
  quantity_at, location_at, Emptied, ship_lines-Emptied,
}

-- The payload's reservation was confirmed, and is completed by the payload's shipment. Of every lot, the
-- units that were reserved for it have left; the lots are where they were.
pub record Shipped (c : Context) (payload : Payload) (t t' : Tables) : Type 0 where
  pub reservation : Reservation
  pub shipment : ℕ
  pub reads : c.cast (string_at payload "reservationId") ≡ some reservation.id
  pub reads_shipment : c.cast (string_at payload "shipmentId") ≡ some shipment
  pub found : find_reservation reservation.id t ≡ some reservation
  pub was : reservation.status ≡ confirmed
  pub completes :
      find_reservation reservation.id t'
      ≡ some (record reservation { status = completed; shipment_id = some shipment })
  pub quantities :
      (k : ℕ)
      → quantity_at k t'.stocks + share reservation.id k t.allocations ≡ quantity_at k t.stocks
  pub reserves :
      (k : ℕ)
      → reserved_at k t'.stocks + share reservation.id k t.allocations ≡ reserved_at k t.stocks
  pub places : (k : ℕ) → location_at k t'.stocks ≡ location_at k t.stocks

-- The payload's reservation was completed before.
pub record Done (c : Context) (payload : Payload) (t : Tables) : Type 0 where
  pub reservation : Reservation
  pub reads : c.cast (string_at payload "reservationId") ≡ some reservation.id
  pub found : find_reservation reservation.id t ≡ some reservation
  pub was : reservation.status ≡ completed
  pub same : is_shipment c reservation.shipment_id (string_at payload "shipmentId") ≡ true

module _ (c : Context) (cat : Catalog) (reads : (k : ℕ) → c.cast (c.text k) ≡ some k) where
  ship_row-Shipped :
      (payload : Payload) (r : Reservation) (s : Store Tables) {s' : Store Tables}
      → Inv s.tables
      → c.cast (string_at payload "reservationId") ≡ some r.id
      → find_reservation r.id s.tables ≡ some r
      → ship_row c cat payload r s ≡ (ok tt, s')
      → Inv s'.tables × Shipped c payload s.tables s'.tables
  unfolding ship_row
  ship_row-Shipped payload r s v reads_r found h =
      throw_if-then s (not (is_status r.status confirmed) || leb r.expires_at c.now) _ _ h λ live h.
        throw_if-then s (not (str_eq (c.text r.warehouse_id) (string_at payload "warehouseId"))) _ _
          h
          λ _ h.
            let l = sort_by by_stock (allocations_of r.id s.tables) in
            bind-then s (ship_lines c cat l) _ h λ items s1 h1 h.
              let d = ship_lines-Emptied c cat reads l s (Sound-Inv v) h1 in
              or_throw-then s1 (c.cast (string_at payload "shipmentId")) _ _ h
                λ shipment reads_shipment h.
                  execute-then s1 (update_reservation r.id (complete shipment)) _ h λ t2 e2 h.
                    update_reservation-then r.id (complete shipment) s1.tables
                      (subst (λ rows. find_row reservation_key r.id rows ≡ some r)
                        (sym d.lowered.reservations) found)
                      (λ y q. ground arith) e2
                      λ y ry u stay.
                        let same = emit-tables (record s1 { tables = t2 }) c _ _ h in
                        let was : r.status ≡ confirmed = ground (arith, live) in
                        (
                          subst Inv (sym same) (
                              Inv-close v d.lowered (all r s.tables) u stay (ground (arith, live))
                                (ground (arith, ry))),
                          subst (Shipped c payload s.tables) (sym same) (
                              finished r l d reads_r reads_shipment found was (all r s.tables) ry u
                                stay),
                        )
    where
      all :
          (r : Reservation) (t : Tables) (j : ℕ)
          → units j (sort_by by_stock (allocations_of r.id t)) ≡ share r.id j t.allocations
      all r t j = units-sort j by_stock (allocations_of r.id t) ∙ units-allocations_of j r.id t

      finished :
          (r : Reservation) (l : List Allocation) {shipment : ℕ} {t t1 t2 : Tables}
          {y : Reservation}
          → Emptied l t t1
          → c.cast (string_at payload "reservationId") ≡ some r.id
          → c.cast (string_at payload "shipmentId") ≡ some shipment
          → find_reservation r.id t ≡ some r
          → r.status ≡ confirmed
          → ((j : ℕ) → units j l ≡ share r.id j t.allocations)
          → complete shipment r ≡ some y
          → Updated reservation_key r.id t1.reservations t2.reservations r y
          → t2 ≡ record t1 { reservations = t2.reservations }
          → Shipped c payload t t2
      finished r l {shipment} {t} {t1} {t2} d reads_r reads_s found was held ry u stay = record {
        reservation = r;
        shipment = shipment;
        reads = reads_r;
        reads_shipment = reads_s;
        found = found;
        was = was;
        completes = ground (arith, u.finds r.id, ry);
        quantities = λ k.
            omega (arith, ap (λ (t : Tables). quantity_at k t.stocks) stay, d.emptied k, held k);
        reserves = λ k.
            omega (
              arith,
              ap (λ (t : Tables). reserved_at k t.stocks) stay,
              d.lowered.lowered k,
              held k,
            );
        places = λ k. ap (λ (t : Tables). location_at k t.stocks) stay ∙ d.places k;
      }

  -- A shipment that succeeds on consistent tables leaves them consistent, so that every ledger is still
  -- the load of the lots at its location. Either the reservation of the payload was completed before by
  -- the same shipment, and the tables are as they were; or it was confirmed and is completed by the
  -- payload's shipment, and of every lot the units that were reserved for it have left, both of its
  -- quantity and of what is reserved of it; the lots are where they were. It is assumed that a uuid reads
  -- back from its text.
  pub ship-Shipped :
      (payload : Payload) (s : Store Tables) {s' : Store Tables}
      → Inv s.tables
      → ship c cat payload s ≡ (ok tt, s')
      → Inv s'.tables
        × (((s'.tables ≡ s.tables) × Done c payload s.tables)
            ⊎ Shipped c payload s.tables s'.tables)
  unfolding ship
  ship-Shipped payload s v h =
      or_throw-then s (c.cast (string_at payload "reservationId")) _ _ h λ k reads_k h.
        or_throw-then s (find_reservation k s.tables) _ _ h λ r found h.
          let key : r.id ≡ k = find_row-key reservation_key k s.tables.reservations found in
          let found_r : find_reservation r.id s.tables ≡ some r =
            subst (λ j. find_reservation j s.tables ≡ some r) (sym key) found in
          let reads_r : c.cast (string_at payload "reservationId") ≡ some r.id =
            reads_k ∙ ap some (sym key) in
          if-then s
            (is_status r.status completed
              && is_shipment c r.shipment_id (string_at payload "shipmentId"))
            (pure tt) (ship_row c cat payload r) h
            (λ done h.
              let same = ap (λ (s : Store Tables). s.tables) (pure-tables s tt h) in
              (
                subst Inv (sym same) v,
                inl (
                  same,
                  record {
                    reservation = r;
                    reads = reads_r;
                    found = found_r;
                    was = ground (arith, done);
                    same = ground (arith, done);
                  },
                ),
              ))
            (λ _ h.
              let (v', done) = ship_row-Shipped payload r s v reads_r found_r h in (v', inr done))

  -- A shipment that succeeds keeps the tables consistent.
  pub ship-Inv :
      (payload : Payload) (s : Store Tables) {s' : Store Tables}
      → Inv s.tables
      → ship c cat payload s ≡ (ok tt, s')
      → Inv s'.tables
  ship-Inv payload s v h = (ship-Shipped payload s v h).0
