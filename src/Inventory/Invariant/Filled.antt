-- ===== src/Inventory/Invariant/Filled.antt =====
-- A reservation is filled with the products that its lines ask for.
use logicore_wms.Base.{
  ℕ, true, none, some, List, [], ◌∷◌, ◌≡◌, refl, sym, ap, ◌∙◌, subst, arith, sum_by, is_some, All,
  ◌⊎◌, inl, inr, leb,
}
use logicore_wms.Base.Rows.{find_row, IsKeyed, some_inj}
use logicore_wms.Platform.Types.{Context, ok, id_check}
use logicore_wms.Platform.Json.{Payload, get, string_at}
use logicore_wms.Platform.Tx.{Store, pure}
use logicore_wms.Platform.Tx.Steps.{
  lift-then, throw_if-then, or_throw-then, execute-then, bind-then, if-then, pure-tables,
  emit-tables,
}
use logicore_wms.Inventory.Stock.{Stock, Line}
use logicore_wms.Inventory.Tables.{
  Tables, Reservation, Allocation, stock_key, reservation_key, find_reservation, insert_reservation,
}
use logicore_wms.Inventory.Lots.{decode_lines}
use logicore_wms.Inventory.Reserve.{reserve_lines, reserve_new, reserve, reservation_row, is_empty}
use logicore_wms.Inventory.Invariant.{Inv}
use logicore_wms.Inventory.Invariant.Reserve.{Reserved, reserve-Reserved, insert_reservation-then}
use logicore_wms.Inventory.Invariant.Reserve.Products.{
  held_of_product, units_held, asked_of, Took, reserve_lines-Took,
}

-- The reservation has been allocated, from lots of the payload's warehouse, as many units of each
-- product as the lines ask for of it.
pub record Filled (c : Context) (payload : Payload) (t t' : Tables) : Type 0 where
  pub reserved : Reserved c payload t t'
  pub warehouse : ℕ
  pub reads : c.cast (string_at payload "warehouseId") ≡ some warehouse
  pub products :
      (p : ℕ) → units_held reserved.id warehouse p t' ≡ sum_by (asked_of c p) reserved.lines

-- A reservation that has no row holds nothing.
unknown_units :
    (r w p : ℕ) (stocks : List Stock) (rows : List Reservation) (l : List Allocation)
    → find_row reservation_key r rows ≡ none
    → All (λ a. is_some (find_row reservation_key a.reservation_id rows) ≡ true) l
    → sum_by (held_of_product r w p stocks) l ≡ 0
unknown_units r w p stocks rows [] new h = refl
unknown_units r w p stocks rows (a ∷ l) new (e, h) =
    ground (arith, unknown_units r w p stocks rows l new h)

module _ (c : Context) (payload : Payload) (s : Store Tables) (v : Inv s.tables)
    (keyed : IsKeyed stock_key s.tables.stocks) (s' : Store Tables) where
  fill :
      (r w : ℕ) (lines : List Line)
      → c.cast (string_at payload "reservationId") ≡ some r
      → c.cast (string_at payload "warehouseId") ≡ some w
      → decode_lines (get "items" payload) ≡ some lines
      → find_reservation r s.tables ≡ none
      → Took r w (λ p. sum_by (asked_of c p) lines) s.tables s'.tables
      → Reserved c payload s.tables s'.tables
      → Filled c payload s.tables s'.tables
  fill r w lines reads reads_w decodes new took done = record {
    reserved = done;
    warehouse = w;
    reads = reads_w;
    products = λ p.
        let same : r ≡ done.id = some_inj (sym reads ∙ done.reads) in
        let all : lines ≡ done.lines = some_inj (sym decodes ∙ done.decodes) in
        subst (λ r. units_held r w p s'.tables ≡ sum_by (asked_of c p) done.lines) same
          (subst (λ l. units_held r w p s'.tables ≡ sum_by (asked_of c p) l) all
            (omega (
              arith,
              took.takes p,
              unknown_units r w p s.tables.stocks s.tables.reservations s.tables.allocations new
                  v.known,
            )));
  }

  reserve_new-Filled :
      (r : ℕ)
      → c.cast (string_at payload "reservationId") ≡ some r
      → reserve_new c payload r s ≡ (ok tt, s')
      → Reserved c payload s.tables s'.tables
      → Filled c payload s.tables s'.tables
  unfolding reserve_new
  reserve_new-Filled r reads h done =
      or_throw-then s (c.parse_time (string_at payload "expiresAt")) _ _ h λ expires _ h.
        throw_if-then s (leb expires c.now) _ _ h λ _ h.
          or_throw-then s (decode_lines (get "items" payload)) _ _ h λ lines decodes h.
            throw_if-then s (is_empty lines) _ _ h λ _ h.
              or_throw-then s (c.cast (string_at payload "warehouseId")) _ _ h λ w reads_w h.
                let row = reservation_row r w expires in
                execute-then s (insert_reservation row) _ h λ t1 e1 h.
                  insert_reservation-then c payload row s.tables e1 λ new stay.
                    bind-then (record s { tables = t1 }) (reserve_lines c r w [] lines) _ h
                      λ _ s2 h2 h.
                        let took =
                          reserve_lines-Took r w c lines [] (record s { tables = t1 })
                            (subst (λ (t : Tables). IsKeyed stock_key t.stocks) (sym stay) keyed)
                            h2 in
                        fill r w lines reads reads_w decodes new
                          (started t1 s2 w r lines stay (emit-tables s2 c _ _ h) took) done
    where
      started :
          (t1 : Tables) (s2 : Store Tables) (w r : ℕ) (lines : List Line) {row : Reservation}
          → t1 ≡ record s.tables { reservations = row ∷ s.tables.reservations }
          → s'.tables ≡ s2.tables
          → Took r w (λ p. sum_by (asked_of c p) lines) t1 s2.tables
          → Took r w (λ p. sum_by (asked_of c p) lines) s.tables s'.tables
      started t1 s2 w r lines {row} stay same took =
          let a =
            subst (λ t. Took r w (λ p. sum_by (asked_of c p) lines) t s'.tables) stay
              (subst (Took r w (λ p. sum_by (asked_of c p) lines) t1) (sym same) took) in
          record { keys = a.keys; kinds = a.kinds; takes = a.takes }

  -- A call of `reserve` that succeeds on consistent tables, on which no two lots have the same
  -- identifier, either changes nothing, or has made a new confirmed reservation, to which exactly the
  -- units that the payload's lines ask for are allocated: of each product as many as the lines ask for of
  -- it are from lots of that product in the payload's warehouse, and in all as many as the lines ask for
  -- in all. Of every lot, what is reserved grows by what the reservation has of it.
  pub reserve-Filled :
      reserve c payload s ≡ (ok tt, s')
      → (s'.tables ≡ s.tables) ⊎ Filled c payload s.tables s'.tables
  unfolding reserve
  reserve-Filled h = elim (reserve-Reserved c payload s v h) [
    | inl same ↦ inl same
    | inr done ↦ lift-then s (id_check c (string_at payload "reservationId")) _ h λ _ _ h.
        or_throw-then s (c.cast (string_at payload "reservationId")) _ _ h λ r reads h.
          if-then s (is_some (find_reservation r s.tables)) (pure tt) (reserve_new c payload r) h
            (λ _ h. inl (ap (λ (s : Store Tables). s.tables) (pure-tables s tt h)))
            (λ _ h. inr (reserve_new-Filled r reads h done))
  ]
