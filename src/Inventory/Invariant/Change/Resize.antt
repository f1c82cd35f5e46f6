-- ===== src/Inventory/Invariant/Change/Resize.antt =====
-- A lot gains or loses units, and its location is charged for them.
use logicore_wms.Base.{
  ℕ, true, false, Option, none, some, ◌+◌, ◌≡◌, refl, sym, ap, ◌∙◌, subst, arith, ◌||◌, ◌⊎◌, inl,
  inr,
}
use logicore_wms.Base.Int.{ℤ, pos, pos_part, neg_part, neg, ◌-ℤ◌, ltb_ℤ}
use logicore_wms.Base.Rows.{Updated, some_inj, find_row}
use logicore_wms.Platform.Types.{Context, ok}
use logicore_wms.Platform.Tx.{Store, Tx, execute, ◌>>◌}
use logicore_wms.Platform.Tx.Steps.{execute-then, bind-then, pure-tables}
use logicore_wms.Inventory.Stock.{Stock}
use logicore_wms.Inventory.Tables.{
  Tables, stock_key, find_stock, update_stock, set_quantity, remove,
}
use logicore_wms.Inventory.Tables.Rows.{update_stock-then}
use logicore_wms.Inventory.Capacity.{Catalog}
use logicore_wms.Inventory.Capacity.Ledger.{Charged, capacity-Charged, weight_at, volume_at}
use logicore_wms.Inventory.Changes.{billion, recharge, recharge_at, is_zero}
use logicore_wms.Inventory.Invariant.{Inv, IsWithin, weight_unit, volume_unit}
use logicore_wms.Inventory.Invariant.Ledgers.{IsBalanced-idle}
use logicore_wms.Inventory.Invariant.Parts.{Inv-Relot, Inv-resize}

-- A lot without a location is resized, or nothing of a lot is.
pub Inv-uncharged :
    {t t2 : Tables} {x y : Stock}
    → Inv t
    → Updated stock_key x.id t.stocks t2.stocks x y
    → t2 ≡ record t { stocks = t2.stocks }
    → (x.location_id ≡ none) ⊎ (y.quantity ≡ x.quantity)
    → y ≡ record x { quantity = y.quantity }
    → IsWithin y
    → Inv t2
Inv-uncharged {t} {t2} {x} {y} v u stay ex ey w =
    Inv-Relot v
      (record {
        row = u;
        reservations = ap (λ (t : Tables). t.reservations) stay;
        allocations = ap (λ (t : Tables). t.allocations) stay;
      })
      (ground (arith, ey)) w
      (IsBalanced-idle weight_unit _ _ u (ground (arith, ey)) v.weights
        (λ j. ground (arith, ey, ex)) (λ j. ap (λ (t : Tables). weight_at j t) stay))
      (IsBalanced-idle volume_unit _ _ u (ground (arith, ey)) v.volumes
        (λ j. ground (arith, ey, ex)) (λ j. ap (λ (t : Tables). volume_at j t) stay))

-- How the location of `x` was charged for `delta` units between two states: it was, or there was
-- nothing to charge.
abbrev pub Recharged : Stock → ℤ → Tables → Tables → Type 0
Recharged x delta t t1 =
    (((x.location_id ≡ none) ⊎ (is_zero delta ≡ true)) × (t1 ≡ t))
    ⊎ ((l : ℕ) × (x.location_id ≡ some l) × Charged l delta x t t1)

module _ (c : Context) (cat : Catalog) (reads : (k : ℕ) → c.cast (c.text k) ≡ some k) where
  pub recharge_at-Recharged :
      (x : Stock) (delta : ℤ) (o : Option ℕ) (s : Store Tables) {s1 : Store Tables}
      → x.location_id ≡ o
      → recharge_at c cat x delta o s ≡ (ok tt, s1)
      → Recharged x delta s.tables s1.tables
  recharge_at-Recharged x delta none s q h =
      inl (inl q, ap (λ (s : Store Tables). s.tables) (pure-tables s tt h))
  recharge_at-Recharged x delta (some l) s {s1} q h =
      let (k, e, ch) = capacity-Charged c cat x (c.text l) delta s h in
      inr (l, q, subst (λ k. Charged k delta x s.tables s1.tables) (some_inj (sym e ∙ reads l)) ch)

  pub recharge-Recharged :
      (x : Stock) (delta : ℤ) (s : Store Tables) {s1 : Store Tables}
      → recharge c cat x delta s ≡ (ok tt, s1)
      → Recharged x delta s.tables s1.tables
  unfolding recharge
  recharge-Recharged x delta s h = recharge_at-Recharged x delta x.location_id s refl h

-- What an update does to a lot that gains or loses `delta` units.
abbrev pub Sizes : Stock → ℤ → (Stock → Option Stock) → Type 0
Sizes x delta f =
    (y : Stock)
    → f x ≡ some y
    → (y ≡ record x { quantity = y.quantity })
      × (y.quantity + neg_part delta ≡ x.quantity + pos_part delta)
      × IsWithin y

-- The lot's location is charged for `delta` units, and the lot then gets them.
pub resize-then :
    {B G : Type 0} (s : Store Tables) (x : Stock) (delta : ℤ) (m0 : Tx Tables (Unit {0}))
    (f : Stock → Option Stock) (m : Tx Tables B) {b : B} {s' : Store Tables}
    → ((s1 : Store Tables) → m0 s ≡ (ok tt, s1) → Recharged x delta s.tables s1.tables)
    → Inv s.tables
    → find_stock x.id s.tables ≡ some x
    → Sizes x delta f
    → (m0 >> (execute (update_stock x.id f) >> m)) s ≡ (ok b, s')
    → ((s2 : Store Tables) → Inv s2.tables → m s2 ≡ (ok b, s') → G)
    → G
resize-then s x delta m0 f m charged v e sized h go = bind-then s m0 _ h λ _ s1 h1 h.
    execute-then s1 (update_stock x.id f) m h
      λ t2 e2 h. go (record s1 { tables = t2 }) (resized s1 t2 e2 (charged s1 h1)) h
  where
    resized :
        (s1 : Store Tables) (t2 : Tables)
        → update_stock x.id f s1.tables ≡ some t2
        → Recharged x delta s.tables s1.tables
        → Inv t2
    resized s1 t2 e2 (inl (q, stay1)) =
        update_stock-then x.id f s.tables e (λ y r. ap (λ (x : Stock). x.id) (sized y r).0)
          (subst (λ t. update_stock x.id f t ≡ some t2) stay1 e2)
          λ y r u stay.
            Inv-uncharged v u stay (ground (arith, q, sized y r)) (sized y r).0 (sized y r).2
    resized s1 t2 e2 (inr (l, q, ch)) =
        update_stock-then x.id f s1.tables
          (subst (λ l. find_row stock_key x.id l ≡ some x) (sym ch.stocks) e)
          (λ y r. ap (λ (x : Stock). x.id) (sized y r).0) e2
          λ y r u stay. Inv-resize v ch u stay q (sized y r).0 (sized y r).1 (sized y r).2

-- The target of an adjustment that was let through is in range.
pub set_quantity-Sizes :
    (x : Stock) (q : ℤ)
    → (ltb_ℤ q (pos 0) || ltb_ℤ (pos billion) q) ≡ false
    → Sizes x (q -ℤ pos x.quantity) (set_quantity (pos_part q))
set_quantity-Sizes x q bounds y h = ground arith

pub remove-Sizes : (x : Stock) (n : ℕ) → IsWithin x → Sizes x (neg n) (remove n)
remove-Sizes x n w y h = ground arith
