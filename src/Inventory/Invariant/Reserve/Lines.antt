-- ===== src/Inventory/Invariant/Reserve/Lines.antt =====
-- The loops of `reserve` keep the invariant, and take what was asked for.
use logicore_wms.Base.{
  ℕ, String, true, false, none, some, List, [], ◌∷◌, ◌+◌, ◌-◌, ◌≤◌, ◌≡◌, refl, sym, ap, ◌∙◌, subst,
  arith, sum_by, is_some, ◌==◌, if◌then◌else◌, min, Option-cases, inl, inr, ltb, ◌||◌,
}
use logicore_wms.Base.Int.{pos, pos_part, leb_ℤ}
use logicore_wms.Base.Rows.{Updated, find_row, All-Updated, All-find_row, find_row-key, some_inj}
use logicore_wms.Platform.Types.{Context, ok, id_check}
use logicore_wms.Platform.Tx.{Store, pure, ◌>>◌}
use logicore_wms.Platform.Tx.Steps.{
  lift-then, throw_if-then, or_throw-then, execute-then, bind-then, if-then, pure-tables,
  throw_if-end, execute-end,
}
use logicore_wms.Inventory.Stock.{Stock, Line}
use logicore_wms.Inventory.Tables.{
  Tables, Allocation, stock_key, reservation_key, find_stock, update_stock, reserve_more,
  insert_allocation,
}
use logicore_wms.Inventory.Tables.Rows.{update_stock-then, update_stock-absent}
use logicore_wms.Inventory.Lots.{Lot, lots_for}
use logicore_wms.Inventory.Reserve.{draw, allocate, is_seen, reserve_line, reserve_lines}
use logicore_wms.Inventory.Capacity.Ledger.{weight_at, volume_at}
use logicore_wms.Inventory.Invariant.{Inv, IsWithin, reserved_at, is_live, weight_unit, volume_unit}
use logicore_wms.Inventory.Invariant.Ledgers.{IsBalanced-idle}
use logicore_wms.Inventory.Invariant.Claims.{share, reserved_at-Updated}

-- What a reservation has been allocated, of all lots.
abbrev pub held_of : ℕ → Allocation → ℕ
held_of r a = if a.reservation_id == r then a.quantity else 0

abbrev pub held : ℕ → List Allocation → ℕ
held r = sum_by (held_of r)

-- Reservation `r` has been allocated `n` more units, and the tables are consistent.
pub record Drawn (r n : ℕ) (t t' : Tables) : Type 0 where
  pub inv : Inv t'
  pub reservations : t'.reservations ≡ t.reservations
  pub taken : held r t'.allocations ≡ held r t.allocations + n
  pub shares :
      (j : ℕ)
      → reserved_at j t'.stocks + share r j t.allocations
        ≡ reserved_at j t.stocks + share r j t'.allocations

Drawn-join :
    {r n m k : ℕ} {t t1 t2 : Tables} → Drawn r n t t1 → Drawn r m t1 t2 → k ≡ n + m → Drawn r k t t2
Drawn-join d d2 e = record {
  inv = d2.inv;
  reservations = d2.reservations ∙ d.reservations;
  taken = omega (arith, d.taken, d2.taken, e);
  shares = λ j. omega (arith, d.shares j, d2.shares j);
}

Drawn-none : (r : ℕ) (t : Tables) {t' : Tables} → Inv t → t' ≡ t → Drawn r 0 t t'
Drawn-none r t v e = record {
  inv = subst Inv (sym e) v;
  reservations = ap (λ (t : Tables). t.reservations) e;
  taken = omega (arith, ap (λ (t : Tables). held r t.allocations) e);
  shares = λ j. omega (
    arith,
    ap (λ (t : Tables). reserved_at j t.stocks) e,
    ap (λ (t : Tables). share r j t.allocations) e,
  );
}

-- The tables with `take` units of a lot allocated, whose row is in `stocks`.
abbrev pub allotted : ℕ → ℕ → ℕ → List Stock → Tables → Tables
allotted r k take stocks t = record t {
  stocks = stocks;
  allocations = record { reservation_id = r; stock_id = k; quantity = take } ∷ t.allocations;
}

module _ (r take : ℕ) {t : Tables} {stocks : List Stock} {x y : Stock} (v : Inv t)
    (live : is_live r t.reservations ≡ true) (ry : reserve_more take x ≡ some y)
    (u : Updated stock_key x.id t.stocks stocks x y) where
  reserved_found : reserved_at x.id t.stocks ≡ x.reserved
  reserved_found = ground (arith, u.found)

  live-known : is_some (find_row reservation_key r t.reservations) ≡ true
  live-known = ground (arith, live)

  Inv-allotted : Inv (allotted r x.id take stocks t)
  Inv-allotted = record {
    backed = λ j. ground (arith, v.backed j, reserved_at-Updated u j, reserved_found, live, ry);
    weights =
        IsBalanced-idle weight_unit (λ l. weight_at l t) (λ l. weight_at l t) u (ground (arith, ry))
          v.weights (λ j. ground (arith, ry)) (λ j. refl);
    volumes =
        IsBalanced-idle volume_unit (λ l. volume_at l t) (λ l. volume_at l t) u (ground (arith, ry))
          v.volumes (λ j. ground (arith, ry)) (λ j. refl);
    known = (live-known, v.known);
    within =
        All-Updated stock_key IsWithin u
          (ground (arith, ry, All-find_row stock_key IsWithin x.id t.stocks v.within u.found))
          v.within;
  }

  Drawn-allotted : Drawn r take t (allotted r x.id take stocks t)
  Drawn-allotted = record {
    inv = Inv-allotted;
    reservations = refl;
    taken = ground (arith, eq_nat r);
    shares = λ j. ground (arith, eq_nat r, reserved_at-Updated u j, reserved_found, ry);
  }
    where
      eq_nat : (n : ℕ) → (n == n) ≡ true
      eq_nat n = ground arith

pub insert_allocation-then :
    {G : Type 0} (r k take : ℕ) (t : Tables) {t' : Tables}
    → insert_allocation (record { reservation_id = r; stock_id = k; quantity = take }) t ≡ some t'
    → (is_some (find_stock k t) ≡ true → t' ≡ allotted r k take t.stocks t → G)
    → G
unfolding insert_allocation
insert_allocation-then r k take t h go = go (ground arith) (ground arith)

module _ (r : ℕ) where
  draw-Drawn :
      (k take : ℕ) (s : Store Tables) {s' : Store Tables}
      → Inv s.tables
      → is_live r s.tables.reservations ≡ true
      → draw r k take s ≡ (ok tt, s')
      → Drawn r take s.tables s'.tables
  unfolding draw
  draw-Drawn k take s {s'} v live h =
      execute-then s (update_stock k (reserve_more take)) _ h λ t1 e1 h.
        let (t2, e2, stay2) = execute-end (record s { tables = t1 }) (insert_allocation _) h in
        insert_allocation-then r k take t1 e2 λ there e2.
          elim (Option-cases (find_stock k s.tables)) [
            | inl absent ↦ absurd (missing t1 absent e1 there)
            | inr (x, found) ↦
                let key : x.id ≡ k = find_row-key stock_key k s.tables.stocks found in
                update_stock-then k (reserve_more take) s.tables found (λ y q. ground arith) e1
                  λ y ry u stay. subst (Drawn r take s.tables) (sym (stay2 ∙ e2 ∙ same t1 stay)) (
                    subst (λ j. Drawn r take s.tables (allotted r j take t1.stocks s.tables)) key
                      (Drawn-allotted r take v live ry (
                        subst (λ j. Updated stock_key j s.tables.stocks t1.stocks x y) (sym key)
                          u)))
          ]
    where
      missing :
          (t1 : Tables)
          → find_stock k s.tables ≡ none
          → update_stock k (reserve_more take) s.tables ≡ some t1
          → is_some (find_stock k t1) ≡ true
          → ⊥
      missing t1 absent e1 there =
          let same : s.tables ≡ t1 =
            some_inj (sym (update_stock-absent k (reserve_more take) s.tables absent) ∙ e1) in
          ground (arith, absent, there, ap (find_stock k) same)

      same :
          (t1 : Tables)
          → t1 ≡ record s.tables { stocks = t1.stocks }
          → allotted r k take t1.stocks t1 ≡ allotted r k take t1.stocks s.tables
      same t1 stay = ap (allotted r k take t1.stocks) stay

  stopped :
      (asked : ℕ) (s : Store Tables) {left : ℕ} {s' : Store Tables}
      → Inv s.tables
      → pure asked s ≡ (ok left, s')
      → (left ≤ asked) × Drawn r (asked - left) s.tables s'.tables
  stopped asked s {left} {s'} v h =
      let same : left ≡ asked = ground arith in
      let none_left : 0 ≡ asked - left = omega (arith, same) in
      (
        omega (arith, same),
        subst (λ n. Drawn r n s.tables s'.tables) none_left
            (Drawn-none r s.tables v (ap (λ (s : Store Tables). s.tables) (pure-tables s asked h))),
      )

  -- The loop over the lots takes what it says.
  allocate-Drawn :
      (lots : List Lot) (asked : ℕ) (s : Store Tables) {left : ℕ} {s' : Store Tables}
      → Inv s.tables
      → is_live r s.tables.reservations ≡ true
      → allocate r lots asked s ≡ (ok left, s')
      → (left ≤ asked) × Drawn r (asked - left) s.tables s'.tables
  unfolding allocate
  allocate-Drawn [] asked s v live h = stopped asked s v h
  allocate-Drawn (l ∷ lots) asked s v live h =
      if-then s (min asked l.n == 0) (pure asked)
        (draw r l.id (min asked l.n) >> allocate r lots (asked - min asked l.n)) h
        (λ _ h. stopped asked s v h)
        (λ _ h. bind-then s (draw r l.id (min asked l.n)) _ h λ _ s1 h1 h.
          let d = draw-Drawn l.id (min asked l.n) s v live h1 in
          let (le, d2) =
            allocate-Drawn lots (asked - min asked l.n) s1 d.inv
              (subst (λ l. is_live r l ≡ true) (sym d.reservations) live) h in
          (omega arith, Drawn-join d d2 (omega arith)))

  module _ (c : Context) (warehouse : ℕ) where
    -- A line that is reserved gets all of its units.
    reserve_line-Drawn :
        (seen : List String) (line : Line) (s : Store Tables) {s' : Store Tables}
        → Inv s.tables
        → is_live r s.tables.reservations ≡ true
        → reserve_line c r warehouse seen line s ≡ (ok tt, s')
        → Drawn r (pos_part line.quantity) s.tables s'.tables
    unfolding reserve_line
    reserve_line-Drawn seen line s {s'} v live h =
        throw_if-then s (leb_ℤ line.quantity (pos 0) || is_seen line.product_id seen) _ _ h λ _ h.
          lift-then s (id_check c line.product_id) _ h λ _ _ h.
            or_throw-then s (c.cast line.product_id) _ _ h λ product _ h.
              bind-then s
                (allocate r (lots_for c.current_date warehouse product s.tables.stocks)
                  (pos_part line.quantity))
                _ h
                λ left s1 h1 h.
                  let (le, d) = allocate-Drawn _ (pos_part line.quantity) s v live h1 in
                  let (done, stay) = throw_if-end s1 (ltb 0 left) _ h in
                  finished {s1 = s1} done stay le d
      where
        finished :
            {left n : ℕ} {s1 : Store Tables}
            → ltb 0 left ≡ false
            → s' ≡ s1
            → left ≤ n
            → Drawn r (n - left) s.tables s1.tables
            → Drawn r n s.tables s'.tables
        finished {left} {n} {s1} done stay le d =
            let all : n - left ≡ n = ground arith in
            subst (λ (s1 : Store Tables). Drawn r n s.tables s1.tables) (sym stay)
              (subst (λ n. Drawn r n s.tables s1.tables) all d)

    pub reserve_lines-Drawn :
        (lines : List Line) (seen : List String) (s : Store Tables) {s' : Store Tables}
        → Inv s.tables
        → is_live r s.tables.reservations ≡ true
        → reserve_lines c r warehouse seen lines s ≡ (ok tt, s')
        → Drawn r (sum_by (λ line. pos_part line.quantity) lines) s.tables s'.tables
    unfolding reserve_lines
    reserve_lines-Drawn [] seen s v live h =
        Drawn-none r s.tables v (ap (λ (s : Store Tables). s.tables) (pure-tables s tt h))
    reserve_lines-Drawn (line ∷ lines) seen s v live h =
        bind-then s (reserve_line c r warehouse seen line) _ h λ _ s1 h1 h.
          let d = reserve_line-Drawn seen line s v live h1 in
          Drawn-join d
            (reserve_lines-Drawn lines (line.product_id ∷ seen) s1 d.inv
              (subst (λ l. is_live r l ≡ true) (sym d.reservations) live) h)
            (omega arith)
