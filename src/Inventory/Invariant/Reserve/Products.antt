-- ===== src/Inventory/Invariant/Reserve/Products.antt =====
-- Which products a reservation is given.
use logicore_wms.Base.{
  ℕ, String, Bool, false, Option, none, some, List, [], ◌∷◌, ◌++◌, ◌+◌, ◌-◌, ◌≤◌, ◌≡◌, ◌==◌, ◌&&◌,
  ◌||◌, refl, sym, ap, ◌∙◌, subst, arith, map, min, ltb, sum_by, sum_by-same, All, All-imp,
  All-both, All-map, All-keep, All-kept, map-append, keep, Option-cases, if◌then◌else◌, inl, inr,
}
use logicore_wms.Base.Int.{pos, pos_part, leb_ℤ}
use logicore_wms.Base.Rows.{find_row, Updated, IsKeyed, IsDistinct, rows_found_themselves}
use logicore_wms.Base.Sort.{All-sort}
use logicore_wms.Platform.Types.{Context, ok, id_check}
use logicore_wms.Platform.Tx.{Store, pure, ◌>>◌}
use logicore_wms.Platform.Tx.Steps.{
  lift-then, throw_if-then, or_throw-then, execute-then, bind-then, if-then, pure-tables,
  throw_if-end, execute-end,
}
use logicore_wms.Inventory.Stock.{Stock, Line}
use logicore_wms.Inventory.Tables.{
  Tables, Allocation, stock_key, find_stock, update_stock, reserve_more, insert_allocation,
}
use logicore_wms.Inventory.Tables.Rows.{update_stock-then}
use logicore_wms.Inventory.Lots.{Lot, lot_of, is_eligible, comes_before, lots_for}
use logicore_wms.Inventory.Lots.Order.{Usable, is_eligible-Usable}
use logicore_wms.Inventory.Reserve.{draw, allocate, is_seen, reserve_line, reserve_lines}
use logicore_wms.Inventory.Invariant.Reserve.Lines.{allotted, insert_allocation-then}

-- Whether a lot is of product `p` in warehouse `w`.
abbrev pub is_of : ℕ → ℕ → Option Stock → Bool
is_of w p none = false
is_of w p (some x) = x.warehouse_id == w && x.product_id == p

abbrev pub held_of_product : ℕ → ℕ → ℕ → List Stock → Allocation → ℕ
held_of_product r w p stocks a =
    if a.reservation_id == r && is_of w p (find_row stock_key a.stock_id stocks)
    then a.quantity
    else 0

-- What reservation `r` has been allocated of product `p`, in warehouse `w`.
abbrev pub units_held : ℕ → ℕ → ℕ → Tables → ℕ
units_held r w p t = sum_by (held_of_product r w p t.stocks) t.allocations

abbrev pub is_product : ℕ → Option ℕ → Bool
is_product p none = false
is_product p (some q) = q == p

-- What a line asks for of product `p`.
abbrev pub asked_of : Context → ℕ → Line → ℕ
asked_of c p line = if is_product p (c.cast line.product_id) then pos_part line.quantity else 0

module _ (r w : ℕ) where
  -- The reservation has been allocated `f p` more units of each product `p`; the lots have the products
  -- that they had.
  pub record Took (f : ℕ → ℕ) (t t' : Tables) : Type 0 where
    pub keys : map stock_key t'.stocks ≡ map stock_key t.stocks
    pub kinds : (p k : ℕ) → is_of w p (find_stock k t') ≡ is_of w p (find_stock k t)
    pub takes : (p : ℕ) → units_held r w p t' ≡ units_held r w p t + f p

  Took-join :
      {f g h : ℕ → ℕ} {t t1 t2 : Tables}
      → Took f t t1
      → Took g t1 t2
      → ((p : ℕ) → h p ≡ f p + g p)
      → Took h t t2
  Took-join a b e = record {
    keys = b.keys ∙ a.keys;
    kinds = λ p k. b.kinds p k ∙ a.kinds p k;
    takes = λ p. omega (arith, a.takes p, b.takes p, e p);
  }

  Took-none : {f : ℕ → ℕ} (t : Tables) {t' : Tables} → t' ≡ t → ((p : ℕ) → f p ≡ 0) → Took f t t'
  Took-none {f} t same e =
      subst (Took f t) (sym same)
        (record { keys = refl; kinds = λ p k. refl; takes = λ p. omega (arith, e p) })

  -- Of which product the units are.
  abbrev of_product : ℕ → ℕ → ℕ → ℕ
  of_product q n p = if q == p then n else 0

  -- Lot `k` is of product `q`, in the warehouse.
  abbrev IsOf : ℕ → Tables → ℕ → Type 0
  IsOf q t k = (p : ℕ) → is_of w p (find_stock k t) ≡ (q == p)

  module _ (q k take : ℕ) (t : Tables) {stocks : List Stock} {x y : Stock} (kind : IsOf q t k)
      (ry : reserve_more take x ≡ some y) (u : Updated stock_key k t.stocks stocks x y) where
    allotted-kinds :
        (p j : ℕ) → is_of w p (find_row stock_key j stocks) ≡ is_of w p (find_stock j t)
    allotted-kinds p j = ground (arith, u.finds j, u.found, ry)

    Took-allotted : Took (of_product q take) t (allotted r k take stocks t)
    Took-allotted = record {
      keys =
          ap (map stock_key) u.after
          ∙ map-append stock_key u.front (y ∷ u.back)
          ∙ ap (λ i. map stock_key u.front ++ (i ∷ map stock_key u.back)) (ground (arith, ry))
          ∙ sym (map-append stock_key u.front (x ∷ u.back))
          ∙ sym (ap (map stock_key) u.before);
      kinds = allotted-kinds;
      takes = λ p. omega (
        arith,
        first p,
        sum_by-same t.allocations (λ a.
            ap (λ b. if a.reservation_id == r && b then a.quantity else 0)
              (allotted-kinds p a.stock_id)),
      );
    }
      where
        first :
            (p : ℕ)
            → held_of_product r w p stocks
                (record { reservation_id = r; stock_id = k; quantity = take })
              ≡ of_product q take p
        first p = ground (arith, allotted-kinds p k, kind p)

  stopped :
      (q asked : ℕ) (s : Store Tables) {left : ℕ} {s' : Store Tables}
      → pure asked s ≡ (ok left, s')
      → (left ≤ asked) × Took (of_product q (asked - left)) s.tables s'.tables
  stopped q asked s {left} h =
      let same : left ≡ asked = ground arith in
      (
        omega (arith, same),
        Took-none s.tables (ap (λ (s : Store Tables). s.tables) (pure-tables s asked h))
            (λ p. ground (arith, same)),
      )

  draw-Took :
      (q k take : ℕ) (s : Store Tables) {s' : Store Tables}
      → IsOf q s.tables k
      → draw r k take s ≡ (ok tt, s')
      → Took (of_product q take) s.tables s'.tables
  unfolding draw
  draw-Took q k take s {s'} kind h =
      execute-then s (update_stock k (reserve_more take)) _ h λ t1 e1 h.
        let (t2, e2, stay2) = execute-end (record s { tables = t1 }) (insert_allocation _) h in
        insert_allocation-then r k take t1 e2 λ there e2.
          elim (Option-cases (find_stock k s.tables)) [
            | inl absent ↦ absurd (ground (arith, absent, kind q))
            | inr (x, found) ↦
                update_stock-then k (reserve_more take) s.tables found (λ y q. ground arith) e1
                  λ y ry u stay.
                    subst (Took (of_product q take) s.tables)
                      (sym (stay2 ∙ e2 ∙ ap (allotted r k take t1.stocks) stay))
                      (Took-allotted q k take s.tables kind ry u)
          ]

  allocate-Took :
      (q : ℕ) (lots : List Lot) (asked : ℕ) (s : Store Tables) {left : ℕ} {s' : Store Tables}
      → All (λ l. IsOf q s.tables l.id) lots
      → allocate r lots asked s ≡ (ok left, s')
      → (left ≤ asked) × Took (of_product q (asked - left)) s.tables s'.tables
  unfolding allocate
  allocate-Took q [] asked s kinds h = stopped q asked s h
  allocate-Took q (l ∷ lots) asked s {left} (kind, kinds) h =
      if-then s (min asked l.n == 0) (pure asked)
        (draw r l.id (min asked l.n) >> allocate r lots (asked - min asked l.n)) h
        (λ _ h. stopped q asked s h)
        (λ _ h. bind-then s (draw r l.id (min asked l.n)) _ h λ _ s1 h1 h.
          let d = draw-Took q l.id (min asked l.n) s kind h1 in
          let (le, d2) =
            allocate-Took q lots (asked - min asked l.n) s1
              (All-imp (λ l kind p. d.kinds p l.id ∙ kind p) lots kinds) h in
          (omega (arith, le), Took-join d d2 (λ p. ground (arith, le))))

  module _ (c : Context) where
    lots-IsOf :
        (q : ℕ) (t : Tables)
        → IsKeyed stock_key t.stocks
        → All (λ l. IsOf q t l.id) (lots_for c.current_date w q t.stocks)
    unfolding lots_for
    lots-IsOf q t keyed =
        let test = is_eligible c.current_date w q in
        let rows = keep test t.stocks in
        All-map (λ (l : Lot). IsOf q t l.id) lot_of _
          (All-sort comes_before (λ x. IsOf q t x.id) rows
            (All-imp (λ x (found, usable) p. of_row x found usable p) rows
              (All-both _ _ rows
                (All-kept _ test t.stocks (rows_found_themselves stock_key t.stocks keyed))
                (All-imp (is_eligible-Usable c.current_date w q) rows (All-keep test t.stocks)))))
      where
        of_row :
            (x : Stock) → find_stock x.id t ≡ some x → Usable c.current_date w q x → IsOf q t x.id
        of_row x found usable p = ground (arith, found, usable.of_warehouse, usable.of_product)

    reserve_line-Took :
        (seen : List String) (line : Line) (s : Store Tables) {s' : Store Tables}
        → IsKeyed stock_key s.tables.stocks
        → reserve_line c r w seen line s ≡ (ok tt, s')
        → Took (λ p. asked_of c p line) s.tables s'.tables
    unfolding reserve_line
    reserve_line-Took seen line s {s'} keyed h =
        throw_if-then s (leb_ℤ line.quantity (pos 0) || is_seen line.product_id seen) _ _ h λ _ h.
          lift-then s (id_check c line.product_id) _ h λ _ _ h.
            or_throw-then s (c.cast line.product_id) _ _ h λ q reads h.
              bind-then s
                (allocate r (lots_for c.current_date w q s.tables.stocks) (pos_part line.quantity))
                _ h
                λ left s1 h1 h.
                  let (le, d) =
                    allocate-Took q _ (pos_part line.quantity) s (lots-IsOf q s.tables keyed) h1 in
                  let (done, stay) = throw_if-end s1 (ltb 0 left) _ h in
                  subst (λ (s1 : Store Tables). Took (λ p. asked_of c p line) s.tables s1.tables)
                    (sym stay)
                    (Took-join d (Took-none s1.tables refl (λ p. refl))
                      (λ p. ground (arith, reads, done)))

    pub reserve_lines-Took :
        (lines : List Line) (seen : List String) (s : Store Tables) {s' : Store Tables}
        → IsKeyed stock_key s.tables.stocks
        → reserve_lines c r w seen lines s ≡ (ok tt, s')
        → Took (λ p. sum_by (asked_of c p) lines) s.tables s'.tables
    unfolding reserve_lines
    reserve_lines-Took [] seen s keyed h =
        Took-none s.tables (ap (λ (s : Store Tables). s.tables) (pure-tables s tt h)) (λ p. refl)
    reserve_lines-Took (line ∷ lines) seen s keyed h =
        bind-then s (reserve_line c r w seen line) _ h λ _ s1 h1 h.
          let d = reserve_line-Took seen line s keyed h1 in
          Took-join d
            (reserve_lines-Took lines (line.product_id ∷ seen) s1
              (subst IsDistinct (sym d.keys) keyed) h)
            (λ p. refl)
