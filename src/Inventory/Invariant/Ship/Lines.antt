-- ===== src/Inventory/Invariant/Ship/Lines.antt =====
-- The loop of `ship` over the allocations.
use logicore_wms.Base.{
  ℕ, true, Option, none, some, List, [], ◌∷◌, ◌+◌, ◌≡◌, sym, ap, ◌∙◌, subst, subst₂, All, is_some,
  arith,
}
use logicore_wms.Base.Int.{neg, pos_part, neg_part}
use logicore_wms.Base.Rows.{Updated, find_row, All-Updated, All-find_row, some_inj}
use logicore_wms.Platform.Types.{Context, ok}
use logicore_wms.Platform.Json.{Json, Items}
use logicore_wms.Platform.Tx.{Store}
use logicore_wms.Platform.Tx.Steps.{
  or_throw-then, execute-then, bind-then, throw_if-then, pure-tables,
}
use logicore_wms.Inventory.Stock.{Stock}
use logicore_wms.Inventory.Tables.{
  Tables, Allocation, stock_key, reservation_key, find_stock, update_stock, deduct,
}
use logicore_wms.Inventory.Tables.Rows.{stock-then, update_stock-then}
use logicore_wms.Inventory.Capacity.{Catalog, capacity}
use logicore_wms.Inventory.Capacity.Ledger.{Charged, capacity-Charged, weight_at, volume_at}
use logicore_wms.Inventory.Fulfil.{has_expired, ship_line, ship_lines}
use logicore_wms.Inventory.Invariant.{IsWithin, weight_unit, volume_unit}
use logicore_wms.Inventory.Invariant.Ledgers.{IsBalanced-resize}
use logicore_wms.Inventory.Invariant.Parts.{weights-IsCharged, volumes-IsCharged}
use logicore_wms.Inventory.Invariant.Claims.{reserved_at-Updated}
use logicore_wms.Inventory.Invariant.Close.{Sound, Lowered, Lowered-none, Lowered-cons, units}

abbrev quantity_of : Option Stock → ℕ
quantity_of none = 0
quantity_of (some x) = x.quantity

abbrev pub quantity_at : ℕ → List Stock → ℕ
quantity_at k stocks = quantity_of (find_row stock_key k stocks)

abbrev location_of : Option Stock → Option ℕ
location_of none = none
location_of (some x) = x.location_id

-- Where a lot is, if it is anywhere.
abbrev pub location_at : ℕ → List Stock → Option ℕ
location_at k stocks = location_of (find_row stock_key k stocks)

-- The units of a list of allocations have left their lots, which are where they were.
pub record Emptied (l : List Allocation) (t t' : Tables) : Type 0 where
  pub lowered : Lowered l t t'
  pub emptied : (j : ℕ) → quantity_at j t'.stocks + units j l ≡ quantity_at j t.stocks
  pub places : (j : ℕ) → location_at j t'.stocks ≡ location_at j t.stocks

Emptied-none : {t t' : Tables} → Sound t → t' ≡ t → Emptied [] t t'
Emptied-none {t} v e = record {
  lowered = Lowered-none v e;
  emptied = λ j. omega (arith, ap (λ (t : Tables). quantity_at j t.stocks) e);
  places = λ j. ap (λ (t : Tables). location_at j t.stocks) e;
}

Emptied-cons :
    {a : Allocation} {l : List Allocation} {t t1 t2 : Tables}
    → Emptied (a ∷ []) t t1
    → Emptied l t1 t2
    → Emptied (a ∷ l) t t2
Emptied-cons d d2 = record {
  lowered = Lowered-cons d.lowered d2.lowered;
  emptied = λ j. omega (arith, d.emptied j, d2.emptied j);
  places = λ j. d2.places j ∙ d.places j;
}

-- The units of one allocation leave their lot, whose location is charged for it.
Lowered-deduct :
    {l : ℕ} {a : Allocation} {t t1 t2 : Tables} {x y : Stock}
    → Sound t
    → Charged l (neg a.quantity) x t t1
    → deduct a.quantity x ≡ some y
    → x.location_id ≡ some l
    → Updated stock_key a.stock_id t.stocks t2.stocks x y
    → t2 ≡ record t1 { stocks = t2.stocks }
    → Lowered (a ∷ []) t t2
Lowered-deduct {l} {a} {t} {t1} {t2} {x} {y} v ch ry ex u stay = record {
  sound = record {
    weights =
        IsBalanced-resize weight_unit (λ j. weight_at j t) (λ j. weight_at j t2) u
          (ground (arith, ry)) v.weights l (neg a.quantity) ex (ground (arith, ry, ex)) resized
          (weights-IsCharged ch stay);
    volumes =
        IsBalanced-resize volume_unit (λ j. volume_at j t) (λ j. volume_at j t2) u
          (ground (arith, ry)) v.volumes l (neg a.quantity) ex (ground (arith, ry, ex)) resized
          (volumes-IsCharged ch stay);
    known =
        subst₂
          (λ res al. All (λ a. is_some (find_row reservation_key a.reservation_id res) ≡ true) al)
          (sym (ap (λ (t : Tables). t.reservations) stay ∙ ch.reservations))
          (sym (ap (λ (t : Tables). t.allocations) stay ∙ ch.allocations)) v.known;
    within =
        All-Updated stock_key IsWithin u
          (ground (arith, ry, All-find_row stock_key IsWithin a.stock_id t.stocks v.within u.found))
          v.within;
  };
  reservations = ap (λ (t : Tables). t.reservations) stay ∙ ch.reservations;
  allocations = ap (λ (t : Tables). t.allocations) stay ∙ ch.allocations;
  lowered = λ j. ground (arith, reserved_at-Updated u j, ry, u.found);
}
  where
    resized : y.quantity + neg_part (neg a.quantity) ≡ x.quantity + pos_part (neg a.quantity)
    resized = ground (arith, ry)

Emptied-deduct :
    {l : ℕ} {a : Allocation} {t t1 t2 : Tables} {x y : Stock}
    → Sound t
    → Charged l (neg a.quantity) x t t1
    → deduct a.quantity x ≡ some y
    → x.location_id ≡ some l
    → Updated stock_key a.stock_id t.stocks t2.stocks x y
    → t2 ≡ record t1 { stocks = t2.stocks }
    → Emptied (a ∷ []) t t2
Emptied-deduct {a = a} v ch ry ex u stay = record {
  lowered = Lowered-deduct v ch ry ex u stay;
  emptied = λ j. ground (arith, u.finds j, u.found, ry);
  places = λ j. ground (arith, u.finds j, u.found, ry);
}

module _ (c : Context) (cat : Catalog) (reads : (k : ℕ) → c.cast (c.text k) ≡ some k) where
  ship_line-Emptied :
      (a : Allocation) (s : Store Tables) {item : Json} {s' : Store Tables}
      → Sound s.tables
      → ship_line c cat a s ≡ (ok item, s')
      → Emptied (a ∷ []) s.tables s'.tables
  unfolding ship_line
  ship_line-Emptied a s {s' = s'} v h = stock-then c (c.text a.stock_id) _ s h λ x cast_x e h.
      throw_if-then s (has_expired c.today x.expiration) _ _ h λ _ h.
        or_throw-then s x.location_id _ _ h λ l ex h.
          bind-then s (capacity c cat x (c.text l) (neg a.quantity)) _ h λ _ s1 h1 h.
            let (k, cast_l, ch) = capacity-Charged c cat x (c.text l) (neg a.quantity) s h1 in
            let place : k ≡ l = some_inj (sym cast_l ∙ reads l) in
            let key : x.id ≡ a.stock_id = some_inj (sym cast_x ∙ reads a.stock_id) in
            let e' : find_stock a.stock_id s.tables ≡ some x =
              subst (λ j. find_stock j s.tables ≡ some x) key e in
            execute-then s1 (update_stock a.stock_id (deduct a.quantity)) _ h λ t2 e2 h.
              update_stock-then a.stock_id (deduct a.quantity) s1.tables
                (subst (λ l. find_row stock_key a.stock_id l ≡ some x) (sym ch.stocks) e')
                (λ y q. ground arith) e2
                λ y ry u stay.
                  subst (λ (t : Tables). Emptied (a ∷ []) s.tables t)
                    (sym (
                      ap (λ (s : Store Tables). s.tables)
                        (pure-tables (record s1 { tables = t2 }) _ h)))
                    (Emptied-deduct v ch ry (ex ∙ ap some (sym place))
                      (subst (λ l. Updated stock_key a.stock_id l t2.stocks x y) ch.stocks u) stay)

  pub ship_lines-Emptied :
      (l : List Allocation) (s : Store Tables) {items : Items} {s' : Store Tables}
      → Sound s.tables
      → ship_lines c cat l s ≡ (ok items, s')
      → Emptied l s.tables s'.tables
  unfolding ship_lines
  ship_lines-Emptied [] s v h =
      Emptied-none v (ap (λ (s : Store Tables). s.tables) (pure-tables s _ h))
  ship_lines-Emptied (a ∷ l) s v h = bind-then s (ship_line c cat a) _ h λ _ s1 h1 h.
      let d = ship_line-Emptied a s v h1 in
      bind-then s1 (ship_lines c cat l) _ h λ _ s2 h2 h.
        let same = ap (λ (s : Store Tables). s.tables) (pure-tables s2 _ h) in
        subst (Emptied (a ∷ l) s.tables) (sym same)
          (Emptied-cons d (ship_lines-Emptied l s1 d.lowered.sound h2))
