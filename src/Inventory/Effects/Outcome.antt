-- ===== src/Inventory/Effects/Outcome.antt =====
-- The effect of a move, of a write-off and of an adjustment.
use logicore_wms.Base.{false, some, List, ◌-◌, ◌≡◌, refl, sym, ap, subst, str_eq, ◌≤◌}
use logicore_wms.Base.Int.{pos, pos_part}
use logicore_wms.Base.Rows.{Updated, find_row}
use logicore_wms.Platform.Types.{Context, ok, id_check}
use logicore_wms.Platform.Json.{Payload}
use logicore_wms.Platform.Tx.{Store, pure, lock}
use logicore_wms.Platform.Tx.Steps.{lift-then, throw_if-then, bind-then, pure-tables, lock-tables}
use logicore_wms.Inventory.Stock.{Stock, check_quantity, available}
use logicore_wms.Inventory.Tables.{Tables, stock_key, find_stock}
use logicore_wms.Inventory.Tables.Rows.{stock-then}
use logicore_wms.Inventory.Capacity.{Catalog}
use logicore_wms.Inventory.Changes.{
  Change, Action, move, write_off, adjust, moved_lot, take_out, change_lot, change, destination,
}
use logicore_wms.Inventory.Effects.{is_adjust, Effect}
use logicore_wms.Inventory.Effects.Rows.{found_before, written-Effect, moved-Effect}
use logicore_wms.Inventory.Effects.Steps.{adjust_to-Effect, reduce, move_to-rows}

module _ (c : Context) (cat : Catalog) where
  destination-Effect :
      (action : Action) (q : Change) (x : Stock) (payload : Payload) (s : Store Tables)
      {p : Payload} {s1 : Store Tables}
      → is_adjust action ≡ false
      → find_stock x.id s.tables ≡ some x
      → destination c cat action q x payload s ≡ (ok p, s1)
      → (find_stock x.id s1.tables ≡ some x)
        × ((rows' : List Stock)
            → pos_part q.quantity ≤ x.quantity
            → Updated stock_key x.id s1.tables.stocks rows' x
                (record x { quantity = x.quantity - pos_part q.quantity })
            → Effect c action q x s.tables.stocks rows')
  destination-Effect adjust q x payload s out found h = absurd (cc)
  destination-Effect move q x payload s out found h =
      let (to, e, new, same) = move_to-rows c cat q x payload s h in
      (
        subst (λ l. find_row stock_key x.id l ≡ some x) (sym same)
            (found_before
              (record (moved_lot c x to (pos_part q.quantity)) { created_at = c.db_now })
              s.tables.stocks x.id new found),
        λ rows' fits u. moved-Effect c q x to e new found fits (
            subst
              (λ l.
                Updated stock_key x.id l rows' x
                  (record x { quantity = x.quantity - pos_part q.quantity }))
              same u),
      )
  destination-Effect write_off q x payload s out found h =
      throw_if-then s (str_eq q.reason "") _ (pure _) h λ _ h.
        let same = ap (λ (s : Store Tables). s.tables.stocks) (pure-tables s _ h) in
        (
          subst (λ l. find_row stock_key x.id l ≡ some x) (sym same) found,
          λ rows' fits u. written-Effect c q x fits (
              subst
                (λ l.
                  Updated stock_key x.id l rows' x
                    (record x { quantity = x.quantity - pos_part q.quantity }))
                same u),
        )

  take_out-Effect :
      (action : Action) (q : Change) (x : Stock) (s : Store Tables) {p : Payload}
      {s' : Store Tables}
      → is_adjust action ≡ false
      → find_stock x.id s.tables ≡ some x
      → take_out c cat action q x s ≡ (ok p, s')
      → Effect c action q x s.tables.stocks s'.tables.stocks
  unfolding take_out
  take_out-Effect action q x s out found h =
      lift-then s (check_quantity q.quantity (available (pos x.quantity) (pos x.reserved))) _ h
        λ _ _ h. bind-then s (destination c cat action q x _) _ h λ payload s1 h1 h.
          let (found1, done) = destination-Effect action q x _ s out found h1 in
          let (fits, u) = reduce c cat action (pos_part q.quantity) x payload s1 found1 h in
          done _ fits u

  change_lot-Effect :
      (action : Action) (q : Change) (x : Stock) (s : Store Tables) {p : Payload}
      {s' : Store Tables}
      → find_stock x.id s.tables ≡ some x
      → change_lot c cat action q x s ≡ (ok p, s')
      → Effect c action q x s.tables.stocks s'.tables.stocks
  change_lot-Effect adjust q x s found h = adjust_to-Effect c cat q x s found h
  change_lot-Effect move q x s found h = take_out-Effect move q x s refl found h
  change_lot-Effect write_off q x s found h = take_out-Effect write_off q x s refl found h

  -- A successful move, write-off or adjustment is one of the lot that the request names. A move leaves the number
  -- of units of every product as it is, a write-off takes its quantity away, and an adjustment replaces the
  -- quantity of the lot; the lot has what is left, a move has added a lot with the moved units at the
  -- destination, and the other lots are as they were.
  pub change-Effect :
      (s : Store Tables) (action : Action) (q : Change) {p : Payload} {s' : Store Tables}
      → change c cat action q s ≡ (ok p, s')
      → (x : Stock) × (c.cast q.stock_id ≡ some x.id)
        × (find_stock x.id s.tables ≡ some x)
        × Effect c action q x s.tables.stocks s'.tables.stocks
  unfolding change
  change-Effect s action q {s' = s'} h = lift-then s (id_check c q.stock_id) _ h λ _ _ h.
      stock-then c q.stock_id _ s h λ before _ _ h.
        bind-then s (lock c (c.text before.warehouse_id)) _ h λ _ s1 h1 h.
          stock-then c q.stock_id _ s1 h λ x reads found h.
            let same = lock-tables s c _ h1 in
            (
              x,
              reads,
              subst (λ t. find_stock x.id t ≡ some x) same found,
              subst (λ (t : Tables). Effect c action q x t.stocks s'.tables.stocks) same
                  (change_lot-Effect action q x s1 found h),
            )
