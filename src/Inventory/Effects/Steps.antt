-- ===== src/Inventory/Effects/Steps.antt =====
-- What the statements of `Change` do to the rows.
use logicore_wms.Base.{
  ℕ, Option, none, some, List, [], ◌∷◌, ◌++◌, ◌+◌, ◌-◌, ◌≡◌, sym, ap, ◌∙◌, subst, arith, ◌||◌, ◌==◌,
  is_some, not, if◌then◌else◌, str_eq, ◌&&◌, ◌≤◌,
}
use logicore_wms.Base.Int.{ℤ, pos, pos_part, neg, ◌-ℤ◌, ltb_ℤ}
use logicore_wms.Base.Rows.{Updated, find_row}
use logicore_wms.Platform.Types.{Context, ok, id_check}
use logicore_wms.Platform.Json.{Payload}
use logicore_wms.Platform.Tx.{Store, pure, execute, emit, ◌>>◌}
use logicore_wms.Platform.Tx.Steps.{
  lift-then, throw_if-then, or_throw-then, execute-then, bind-then, if-then, pure-tables,
  emitted-tables,
}
use logicore_wms.Inventory.Stock.{Stock}
use logicore_wms.Inventory.Tables.{
  Tables, stock_key, find_stock, update_stock, set_quantity, remove, insert_stock,
}
use logicore_wms.Inventory.Tables.Rows.{update_stock-then, insert_stock-then}
use logicore_wms.Inventory.Capacity.{Catalog, capacity}
use logicore_wms.Inventory.Capacity.Ledger.{capacity-Charged}
use logicore_wms.Inventory.Changes.{
  Change, Action, adjust, billion, recharge, recharge_at, adjust_to, move_to, moved_lot,
  event_of_action, is_at, is_zero,
}
use logicore_wms.Inventory.Effects.{units, Effect}
use logicore_wms.Inventory.Effects.Rows.{resized, self_found, other_found}

module _ (c : Context) (cat : Catalog) where
  recharge_at-stocks :
      (x : Stock) (delta : ℤ) (o : Option ℕ) (s : Store Tables) {b : Unit {0}} {s' : Store Tables}
      → recharge_at c cat x delta o s ≡ (ok b, s')
      → s'.tables.stocks ≡ s.tables.stocks
  recharge_at-stocks x delta none s h =
      ap (λ (s : Store Tables). s.tables.stocks) (pure-tables s tt h)
  recharge_at-stocks x delta (some l) s h =
      let (k, cast_l, ch) = capacity-Charged c cat x (c.text l) delta s h in ch.stocks

  pub recharge-stocks :
      (x : Stock) (delta : ℤ) (s : Store Tables) {b : Unit {0}} {s' : Store Tables}
      → recharge c cat x delta s ≡ (ok b, s')
      → s'.tables.stocks ≡ s.tables.stocks
  unfolding recharge
  recharge-stocks x delta s h = recharge_at-stocks x delta x.location_id s h

  -- The row that a checked statement gives the lot.
  resized-then :
      {G : Type 0} (x : Stock) (f : Stock → Option Stock) (t : Tables) {t' : Tables}
      → find_stock x.id t ≡ some x
      → ((y : Stock) → f x ≡ some y → y.id ≡ x.id)
      → update_stock x.id f t ≡ some t'
      → ((y : Stock) → f x ≡ some y → Updated stock_key x.id t.stocks t'.stocks x y → G)
      → G
  resized-then x f t found keeps h go =
      update_stock-then x.id f t found keeps h λ y ry u stay. go y ry u

  pub adjust_to-Effect :
      (q : Change) (x : Stock) (s : Store Tables) {p : Payload} {s' : Store Tables}
      → find_stock x.id s.tables ≡ some x
      → adjust_to c cat q x s ≡ (ok p, s')
      → Effect c adjust q x s.tables.stocks s'.tables.stocks
  unfolding adjust_to
  adjust_to-Effect q x s {s' = s'} found h =
      let delta = q.quantity -ℤ pos x.quantity in
      throw_if-then s (ltb_ℤ q.quantity (pos 0) || ltb_ℤ (pos billion) q.quantity) _ _ h λ bounds h.
        throw_if-then s (ltb_ℤ q.quantity (pos x.reserved)) _ _ h λ enough h.
          throw_if-then s (str_eq q.reason "") _ _ h λ _ h.
            throw_if-then s (not (is_some x.location_id) && ltb_ℤ (pos 0) delta) _ _ h λ _ h.
              bind-then s (if is_zero delta then pure tt else recharge c cat x delta) _ h
                λ _ s1 h1 h.
                  execute-then s1 (update_stock x.id (set_quantity (pos_part q.quantity))) _ h
                    λ t2 e2 h.
                      let same = recharged s1 h1 in
                      resized-then x (set_quantity (pos_part q.quantity)) s1.tables
                        (subst (λ l. find_row stock_key x.id l ≡ some x) (sym same) found)
                        (λ y ry. ground arith) e2
                        λ y ry u.
                          subst (λ (t : Tables). Effect c adjust q x s.tables.stocks t.stocks)
                            (sym (emitted-tables (record s1 { tables = t2 }) c _ _ _ h).0)
                            (resize-Effect y (ground (arith, ry))
                              (subst (λ l. Updated stock_key x.id l t2.stocks x y) same u))
    where
      recharged :
          (s1 : Store Tables)
          → (if is_zero (q.quantity -ℤ pos x.quantity)
                then pure tt
                else recharge c cat x (q.quantity -ℤ pos x.quantity))
              s
            ≡ (ok tt, s1)
          → s1.tables.stocks ≡ s.tables.stocks
      recharged s1 h =
          if-then s (is_zero (q.quantity -ℤ pos x.quantity)) (pure tt)
            (recharge c cat x (q.quantity -ℤ pos x.quantity)) h
            (λ z h. ap (λ (s : Store Tables). s.tables.stocks) (pure-tables s tt h))
            (λ _ h. recharge-stocks x _ s h)

      resize-Effect :
          {rows rows' : List Stock} (y : Stock)
          → y ≡ record x { quantity = pos_part q.quantity }
          → Updated stock_key x.id rows rows' x y
          → Effect c adjust q x rows rows'
      resize-Effect {rows} y e u = record {
        units = λ p.
            resized x y u (ap (λ (y : Stock). y.product_id) e) p
            ∙ ap (λ (n : ℕ). units p rows + (if x.product_id == p then n else 0))
                (ap (λ (y : Stock). y.quantity) e);
        left = self_found x y u ∙ ap some e;
        others = λ j n found. other_found x y u j n found;
        arrives = tt;
      }

  -- The end of a move or a write-off: the lot is reduced, and was large enough.
  pub reduce :
      (action : Action) (n : ℕ) (x : Stock) (payload : Payload) (s : Store Tables) {p : Payload}
      {s' : Store Tables}
      → find_stock x.id s.tables ≡ some x
      → (recharge c cat x (neg n)
            >> (execute (update_stock x.id (remove n))
                >> (emit c (event_of_action action) payload >> pure payload)))
          s
        ≡ (ok p, s')
      → (n ≤ x.quantity)
        × Updated stock_key x.id s.tables.stocks s'.tables.stocks x
            (record x { quantity = x.quantity - n })
  reduce action n x payload s {s' = s'} found h =
      bind-then s (recharge c cat x (neg n)) _ h λ _ s1 h1 h.
        let same = recharge-stocks x (neg n) s h1 in
        execute-then s1 (update_stock x.id (remove n)) _ h λ t2 e2 h.
          resized-then x (remove n) s1.tables
            (subst (λ l. find_row stock_key x.id l ≡ some x) (sym same) found)
            (λ y ry. ground arith) e2
            λ y ry u. (
              ground (arith, ry),
              subst
                  (λ (t : Tables).
                    Updated stock_key x.id s.tables.stocks t.stocks x
                      (record x { quantity = x.quantity - n }))
                  (sym (emitted-tables (record s1 { tables = t2 }) c _ _ _ h).0)
                  (subst (Updated stock_key x.id s.tables.stocks t2.stocks x) (ground (arith, ry))
                    (subst (λ l. Updated stock_key x.id l t2.stocks x y) same u)),
            )

  -- The lots after the destination of a move is charged.
  pub move_to-rows :
      (q : Change) (x : Stock) (payload : Payload) (s : Store Tables) {p : Payload}
      {s' : Store Tables}
      → move_to c cat q x payload s ≡ (ok p, s')
      → (to : ℕ) × (c.cast q.to_location_id ≡ some to)
        × (find_stock c.new_id s.tables ≡ none)
        × (s'.tables.stocks
            ≡ s.tables.stocks
              ++ (record (moved_lot c x to (pos_part q.quantity)) { created_at = c.db_now } ∷ []))
  unfolding move_to
  move_to-rows q x payload s {s' = s'} h = lift-then s (id_check c q.to_location_id) _ h λ _ _ h.
      throw_if-then s (is_at c x q.to_location_id) _ _ h λ _ h.
        bind-then s (capacity c cat x q.to_location_id q.quantity) _ h λ _ s1 h1 h.
          let (l, cast_l, ch) = capacity-Charged c cat x q.to_location_id q.quantity s h1 in
          or_throw-then s1 (c.cast q.to_location_id) _ _ h λ k cast_k h.
            execute-then s1 (insert_stock c (moved_lot c x k (pos_part q.quantity))) _ h λ t2 e2 h.
              insert_stock-then c (moved_lot c x k (pos_part q.quantity)) s1.tables e2 λ new stay. (
                k,
                cast_k,
                subst (λ l. find_row stock_key c.new_id l ≡ none) ch.stocks new,
                ap (λ (s : Store Tables). s.tables.stocks)
                      (pure-tables (record s1 { tables = t2 }) _ h)
                    ∙ ap (λ (t : Tables). t.stocks) stay
                    ∙ ap
                        (λ l.
                          l
                          ++ (record (moved_lot c x k (pos_part q.quantity)) {
                            created_at = c.db_now;
                          }
                              ∷ []))
                        ch.stocks,
              )
