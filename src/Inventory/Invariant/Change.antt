-- ===== src/Inventory/Invariant/Change.antt =====
-- `receive` and `change` keep the invariant. A context is used whose uuids read back from their
-- text.
mod Resize
mod Insert
use logicore_wms.Base.{
  ℕ, String, Bool, true, false, Option, none, some, List, [], ◌∷◌, ◌++◌, ◌+◌, ◌-◌, ◌≡◌, refl, sym,
  ap, ◌∙◌, subst, subst₂, ◌≤◌, arith, ◌||◌, ◌==◌, is_some, not, if◌then◌else◌, str_eq, ◌&&◌, ◌⊎◌,
  All, All-append, Option-cases, inl, inr, Bool-cases,
}
use logicore_wms.Base.Int.{ℤ, pos, negsuc, pos_part, neg_part, neg, ◌-ℤ◌, ltb_ℤ, leb_ℤ}
use logicore_wms.Base.Rows.{Updated, some_inj, find_row, All-find_row, find_row-snoc}
use logicore_wms.Platform.Types.{Context, ok, id_check, invalid}
use logicore_wms.Platform.Json.{Payload, string_at}
use logicore_wms.Platform.Tx.{Store, Tx, pure, throw_if, lock, execute, ◌>>◌, ◌>>=◌}
use logicore_wms.Platform.Tx.Steps.{
  lift-then, throw_if-then, or_throw-then, execute-then, bind-then, if-then, pure-tables,
  emit-tables, lock-tables, emitted-tables,
}
use logicore_wms.Inventory.Stock.{Stock, check_quantity, available}
use logicore_wms.Inventory.Tables.{
  Tables, stock_key, reservation_key, find_stock, update_stock, set_quantity, remove, insert_stock,
}
use logicore_wms.Inventory.Tables.Rows.{stock-then, update_stock-then, insert_stock-then}
use logicore_wms.Inventory.Capacity.{Catalog, capacity}
use logicore_wms.Inventory.Capacity.Ledger.{Charged, capacity-Charged, weight_at, volume_at}
use logicore_wms.Inventory.Changes.{
  Receive, Change, Action, move, write_off, adjust, billion, receive, recharge, recharge_at,
  adjust_to, move_to, moved_lot, is_at, take_out, change_lot, change, expiration_of, received_lot,
  is_zero, destination,
}
use logicore_wms.Inventory.Invariant.{
  Inv, IsWithin, IsBalanced, reserved_at, claims, weight_unit, volume_unit,
}
use logicore_wms.Inventory.Invariant.Ledgers.{
  IsBalanced-add, IsBalanced-add_unplaced, IsBalanced-idle,
}
use logicore_wms.Inventory.Invariant.Parts.{
  Relot, Relot-Charged, Inv-Relot, Inv-resize, weights-IsCharged, volumes-IsCharged,
}
use logicore_wms.Inventory.Invariant.Change.Resize.{
  Inv-uncharged, Recharged, recharge_at-Recharged, Sizes, recharge-Recharged, resize-then,
  set_quantity-Sizes, remove-Sizes,
}
use logicore_wms.Inventory.Invariant.Change.Insert.{
  reserved_at-snoc, find_stock-snoc, Inv-add, Inv-add_unplaced, check_quantity-ok,
}

module _ (c : Context) (cat : Catalog) (reads : (k : ℕ) → c.cast (c.text k) ≡ some k)
    (s : Store Tables) (v : Inv s.tables) {s' : Store Tables} where
  adjust_to-Inv :
      (q : Change) (x : Stock) {p : Payload}
      → find_stock x.id s.tables ≡ some x
      → adjust_to c cat q x s ≡ (ok p, s')
      → Inv s'.tables
  unfolding adjust_to
  adjust_to-Inv q x e h =
      let delta = q.quantity -ℤ pos x.quantity in
      throw_if-then s (ltb_ℤ q.quantity (pos 0) || ltb_ℤ (pos billion) q.quantity) _ _ h λ bounds h.
        throw_if-then s (ltb_ℤ q.quantity (pos x.reserved)) _ _ h λ enough h.
          throw_if-then s (str_eq q.reason "") _ _ h λ _ h.
            throw_if-then s (not (is_some x.location_id) && ltb_ℤ (pos 0) delta) _ _ h λ _ h.
              resize-then s x delta (if is_zero delta then pure tt else recharge c cat x delta)
                (set_quantity (pos_part q.quantity)) _ recharged v e
                (set_quantity-Sizes x q.quantity bounds) h
                λ s2 v2 h. subst Inv (sym (emitted-tables s2 c _ _ _ h).0) v2
    where
      recharged :
          (s1 : Store Tables)
          → (if is_zero (q.quantity -ℤ pos x.quantity)
                then pure tt
                else recharge c cat x (q.quantity -ℤ pos x.quantity))
              s
            ≡ (ok tt, s1)
          → Recharged x (q.quantity -ℤ pos x.quantity) s.tables s1.tables
      recharged s1 h =
          if-then s (is_zero (q.quantity -ℤ pos x.quantity)) (pure tt)
            (recharge c cat x (q.quantity -ℤ pos x.quantity)) h
            (λ z h. inl (inr z, ap (λ (s : Store Tables). s.tables) (pure-tables s tt h)))
            (λ _ h. recharge-Recharged c cat reads x _ s h)

  -- The destination of a move is charged for a new lot; the lot that is moved is still there.
  move_to-Inv :
      (q : Change) (x : Stock) (payload : Payload) {p : Payload}
      → find_stock x.id s.tables ≡ some x
      → q.quantity ≡ pos (pos_part q.quantity)
      → pos_part q.quantity ≤ billion
      → move_to c cat q x payload s ≡ (ok p, s')
      → Inv s'.tables × (find_stock x.id s'.tables ≡ some x)
  unfolding move_to
  move_to-Inv q x payload e positive small h =
      lift-then s (id_check c q.to_location_id) _ h λ _ _ h.
        throw_if-then s (is_at c x q.to_location_id) _ _ h λ _ h.
          bind-then s (capacity c cat x q.to_location_id q.quantity) _ h λ _ s1 h1 h.
            let (l, cast_l, ch) = capacity-Charged c cat x q.to_location_id q.quantity s h1 in
            or_throw-then s1 (c.cast q.to_location_id) _ _ h λ k cast_k h.
              execute-then s1 (insert_stock c (moved_lot c x k (pos_part q.quantity))) _ h
                λ t2 e2 h.
                  insert_stock-then c (moved_lot c x k (pos_part q.quantity)) s1.tables e2
                    λ new stay.
                      let end = pure-tables (record s1 { tables = t2 }) _ h in
                      let tables : s'.tables ≡ t2 = ap (λ (s : Store Tables). s.tables) end in
                      let kl : k ≡ l = some_inj (sym cast_k ∙ cast_l) in
                      let ch' : Charged l (pos (pos_part q.quantity)) x s.tables s1.tables =
                        subst (λ n. Charged l n x s.tables s1.tables) positive ch in
                      let z : Stock = record (moved_lot c x k (pos_part q.quantity)) {
                        created_at = c.db_now;
                      } in
                      (
                        subst Inv (sym tables)
                            (Inv-add x z v ch' stay new (ap some kl) refl refl refl small),
                        subst (λ t. find_stock x.id t ≡ some x) (sym (tables ∙ stay))
                            (find_stock-snoc x.id s1.tables.stocks z x new
                              (subst (λ l. find_row stock_key x.id l ≡ some x) (sym ch.stocks) e)),
                      )

  written_off :
      (q : Change) (x : Stock) (p' : Payload) {p : Payload}
      → find_stock x.id s.tables ≡ some x
      → (throw_if (str_eq q.reason "") (invalid "reason required") >> pure p') s ≡ (ok p, s')
      → Inv s'.tables × (find_stock x.id s'.tables ≡ some x)
  written_off q x p' e h = throw_if-then s (str_eq q.reason "") _ (pure p') h λ _ h.
      let same = ap (λ (s : Store Tables). s.tables) (pure-tables s p' h) in
      (subst Inv (sym same) v, subst (λ t. find_stock x.id t ≡ some x) (sym same) e)

  destination-Inv :
      (action : Action) (q : Change) (x : Stock) (payload : Payload) {p : Payload}
      → find_stock x.id s.tables ≡ some x
      → q.quantity ≡ pos (pos_part q.quantity)
      → pos_part q.quantity ≤ billion
      → destination c cat action q x payload s ≡ (ok p, s')
      → Inv s'.tables × (find_stock x.id s'.tables ≡ some x)
  destination-Inv move q x payload e positive small h = move_to-Inv q x payload e positive small h
  destination-Inv write_off q x payload e positive small h = written_off q x _ e h
  destination-Inv adjust q x payload e positive small h = written_off q x _ e h

-- What is taken out of a lot is what it has available.
available-le : (x : Stock) (n : ℕ) → IsWithin x → n + x.reserved ≤ x.quantity → n ≤ billion
available-le x n w h = omega arith

module _ (c : Context) (cat : Catalog) (reads : (k : ℕ) → c.cast (c.text k) ≡ some k) where
  take_out-Inv :
      (s : Store Tables) {s' : Store Tables} (action : Action) (q : Change) (x : Stock)
      {p : Payload}
      → Inv s.tables
      → find_stock x.id s.tables ≡ some x
      → take_out c cat action q x s ≡ (ok p, s')
      → Inv s'.tables
  unfolding take_out
  take_out-Inv s action q x v e h =
      let w : IsWithin x = All-find_row stock_key IsWithin x.id s.tables.stocks v.within e in
      lift-then s (check_quantity q.quantity (available (pos x.quantity) (pos x.reserved))) _ h
        λ _ ok_q h.
          let (positive, fits) = check_quantity-ok x.quantity x.reserved q.quantity ok_q in
          bind-then s (destination c cat action q x _) _ h λ payload s1 h1 h.
            let (v1, e1) =
              destination-Inv c cat reads s v action q x _ e positive
                (available-le x (pos_part q.quantity) w fits) h1 in
            resize-then s1 x (neg (pos_part q.quantity))
              (recharge c cat x (neg (pos_part q.quantity))) (remove (pos_part q.quantity)) _
              (λ s2 h2. recharge-Recharged c cat reads x (neg (pos_part q.quantity)) s1 h2) v1 e1
              (remove-Sizes x (pos_part q.quantity) w) h
              λ s2 v2 h. subst Inv (sym (emitted-tables s2 c _ _ _ h).0) v2

  change_lot-Inv :
      (s : Store Tables) {s' : Store Tables} (action : Action) (q : Change) (x : Stock)
      {p : Payload}
      → Inv s.tables
      → find_stock x.id s.tables ≡ some x
      → change_lot c cat action q x s ≡ (ok p, s')
      → Inv s'.tables
  change_lot-Inv s adjust q x v e h = adjust_to-Inv c cat reads s v q x e h
  change_lot-Inv s move q x v e h = take_out-Inv s move q x v e h
  change_lot-Inv s write_off q x v e h = take_out-Inv s write_off q x v e h

  -- Moving, writing off and adjusting keep the tables consistent.
  pub change-Inv :
      (s : Store Tables) {s' : Store Tables} (action : Action) (q : Change) {p : Payload}
      → Inv s.tables
      → change c cat action q s ≡ (ok p, s')
      → Inv s'.tables
  unfolding change
  change-Inv s action q v h = lift-then s (id_check c q.stock_id) _ h λ _ _ h.
      stock-then c q.stock_id _ s h λ before _ _ h.
        bind-then s (lock c (c.text before.warehouse_id)) _ h λ _ s1 h1 h.
          stock-then c q.stock_id _ s1 h
            λ x _ e h. change_lot-Inv s1 action q x (subst Inv (sym (lock-tables s c _ h1)) v) e h

received_quantity :
    (n : ℤ) (b : Bool)
    → (leb_ℤ n (pos 0) || ltb_ℤ (pos billion) n || b) ≡ false
    → pos_part n ≤ billion
received_quantity n b h = ground arith

-- A receipt keeps the tables consistent.
pub receive-Inv :
    (c : Context) (cat : Catalog) (q : Receive) (s : Store Tables) {x : Stock} {s' : Store Tables}
    → Inv s.tables
    → receive c cat q s ≡ (ok x, s')
    → Inv s'.tables
unfolding receive
receive-Inv c cat q s v h = lift-then s (id_check c q.product_id) _ h λ _ _ h.
    bind-then s (lock c q.warehouse_id) _ h λ _ s1 h1 h.
      throw_if-then s1
        (leb_ℤ q.quantity (pos 0) || ltb_ℤ (pos billion) q.quantity || str_eq q.batch "") _ _ h
        λ bounds h. lift-then s1 (cat.product q.product_id) _ h λ product _ h.
          throw_if-then s1 (not product.active) _ _ h λ _ h.
            lift-then s1 (cat.warehouse q.warehouse_id) _ h λ warehouse _ h.
              throw_if-then s1 (not (str_eq (string_at warehouse "status") "ACTIVE")) _ _ h λ _ h.
                lift-then s1 (expiration_of c q.expiration) _ h λ expires _ h.
                  or_throw-then s1 (c.cast q.product_id) _ _ h λ product_id _ h.
                    or_throw-then s1 (c.cast q.warehouse_id) _ _ h λ warehouse_id _ h.
                      execute-then s1
                        (insert_stock c (received_lot c q product expires product_id warehouse_id))
                        _ h
                        λ t2 e2 h.
                          insert_stock-then c
                            (received_lot c q product expires product_id warehouse_id) s1.tables e2
                            λ new stay.
                              subst Inv
                                (sym (emitted-tables (record s1 { tables = t2 }) c _ _ _ h).0)
                                (Inv-add_unplaced
                                  (record (received_lot c q product expires product_id
                                    warehouse_id) { created_at = c.db_now })
                                  (subst Inv (sym (lock-tables s c _ h1)) v) stay new refl refl
                                  (received_quantity q.quantity _ bounds))
