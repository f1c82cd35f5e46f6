-- ===== src/Inventory/Invariant/Place.antt =====
-- What `place` does.
use logicore_wms.Base.{
  ℕ, false, true, none, some, ◌+◌, ◌*◌, ◌≡◌, ◌⊎◌, inl, inr, refl, ap, ◌∙◌, sym, subst, arith, ◌||◌,
  ◌==◌, is_some, not, str_eq,
}
use logicore_wms.Base.Int.{pos}
use logicore_wms.Base.Rows.{Updated, find_row, All-find_row}
use logicore_wms.Platform.Types.{Context, ok, id_check}
use logicore_wms.Platform.Json.{Payload, string_at}
use logicore_wms.Platform.Tx.{Store, pure}
use logicore_wms.Platform.Tx.Steps.{
  lift-then, throw_if-then, or_throw-then, execute-then, bind-then, if-then, pure-tables,
  emit-tables,
}
use logicore_wms.Inventory.Stock.{Stock}
use logicore_wms.Inventory.Tables.{Tables, stock_key, find_stock, update_stock, put_at}
use logicore_wms.Inventory.Tables.Rows.{stock-then, update_stock-then}
use logicore_wms.Inventory.Capacity.{Catalog, capacity}
use logicore_wms.Inventory.Capacity.Ledger.{Charged, capacity-Charged, weight_at, volume_at}
use logicore_wms.Inventory.Fulfil.{place, place_at}
use logicore_wms.Inventory.Invariant.{Inv, IsWithin, weight_unit, volume_unit}
use logicore_wms.Inventory.Invariant.Ledgers.{IsBalanced-place}
use logicore_wms.Inventory.Invariant.Parts.{
  Relot, Relot-Charged, Inv-Relot, weights-IsCharged, volumes-IsCharged,
}

-- A lot without a location is put at `l`, which is charged for it.
Inv-place :
    {l : ℕ} {t t1 t2 : Tables} {x y : Stock}
    → Inv t
    → find_stock x.id t ≡ some x
    → x.location_id ≡ none
    → Charged l (pos x.quantity) x t t1
    → Updated stock_key x.id t1.stocks t2.stocks x y
    → t2 ≡ record t1 { stocks = t2.stocks }
    → y ≡ record x { location_id = some l }
    → Inv t2
Inv-place {l} {t} {t1} {t2} {x} {y} v e ex ch u stay ey =
    let r : Relot x.id t t2 x y = Relot-Charged ch u stay in
    let w : IsWithin x = All-find_row stock_key IsWithin x.id t.stocks v.within e in
    Inv-Relot v r (ground (arith, ey)) (ground (arith, ey, w))
      (IsBalanced-place weight_unit (λ j. weight_at j t) (λ j. weight_at j t2) r.row
        (ground (arith, ey)) v.weights l ex (ground (arith, ey)) (ground (arith, ey))
        (weights-IsCharged ch stay))
      (IsBalanced-place volume_unit (λ j. volume_at j t) (λ j. volume_at j t2) r.row
        (ground (arith, ey)) v.volumes l ex (ground (arith, ey)) (ground (arith, ey))
        (volumes-IsCharged ch stay))

-- The lot of the payload waited for a location and has been put at that of the payload, of which the
-- ledger has grown by all of the lot. Other lots and other ledgers are as they were.
pub record Placed (c : Context) (payload : Payload) (t t' : Tables) : Type 0 where
  pub lot : Stock
  pub location : ℕ
  pub reads_lot : c.cast (string_at payload "stockId") ≡ some lot.id
  pub reads_location : c.cast (string_at payload "locationId") ≡ some location
  pub found : find_stock lot.id t ≡ some lot
  pub waits : lot.location_id ≡ none
  pub put : find_stock lot.id t' ≡ some (record lot { location_id = some location })
  pub others : (k : ℕ) → (lot.id == k) ≡ false → find_stock k t' ≡ find_stock k t
  pub weight : weight_at location t' ≡ weight_at location t + lot.quantity * lot.weight
  pub volume : volume_at location t' ≡ volume_at location t + lot.quantity * lot.volume
  pub elsewhere :
      (k : ℕ)
      → (location == k) ≡ false
      → (weight_at k t' ≡ weight_at k t) × (volume_at k t' ≡ volume_at k t)

-- The lot of the payload has a location already, or has no units.
pub record Idle (c : Context) (payload : Payload) (t : Tables) : Type 0 where
  pub lot : Stock
  pub reads : c.cast (string_at payload "stockId") ≡ some lot.id
  pub found : find_stock lot.id t ≡ some lot
  pub idle : (is_some lot.location_id ≡ true) ⊎ (lot.quantity ≡ 0)

module _ (c : Context) (payload : Payload) (s : Store Tables) where
  Charged-Placed :
      {l : ℕ} {t1 t2 : Tables} {x y : Stock}
      → c.cast (string_at payload "stockId") ≡ some x.id
      → c.cast (string_at payload "locationId") ≡ some l
      → find_stock x.id s.tables ≡ some x
      → x.location_id ≡ none
      → Charged l (pos x.quantity) x s.tables t1
      → Updated stock_key x.id t1.stocks t2.stocks x y
      → t2 ≡ record t1 { stocks = t2.stocks }
      → y ≡ record x { location_id = some l }
      → Placed c payload s.tables t2
  Charged-Placed {l} {t1} {t2} {x} {y} reads_x reads_l e ex ch u stay ey = record {
    lot = x;
    location = l;
    reads_lot = reads_x;
    reads_location = reads_l;
    found = e;
    waits = ex;
    put = ground (arith, u.finds x.id, ey);
    others = λ k n. u.finds k ∙ rw n (ap (find_row stock_key k) ch.stocks);
    weight = ground (arith, ap (weight_at l) stay, ch.weights l);
    volume = ground (arith, ap (volume_at l) stay, ch.volumes l);
    elsewhere = λ k n. (
      ap (weight_at k) stay ∙ ch.weights k ∙ rw n refl,
      ap (volume_at k) stay ∙ ch.volumes k ∙ rw n refl,
    );
  }

module _ (c : Context) (cat : Catalog) (s : Store Tables) {s' : Store Tables}
    (payload : Payload) where
  place_at-done :
      Inv s.tables
      → (x : Stock) → c.cast (string_at payload "stockId") ≡ some x.id
      → find_stock x.id s.tables ≡ some x
      → x.location_id ≡ none
      → place_at c cat x (string_at payload "locationId") s ≡ (ok tt, s')
      → Inv s'.tables × Placed c payload s.tables s'.tables
  unfolding place_at
  place_at-done v x reads_x e ex h =
      let location = string_at payload "locationId" in
      lift-then s (id_check c location) _ h λ _ _ h.
        bind-then s (capacity c cat x location (pos x.quantity)) _ h λ _ s1 h1 h.
          let (l, cast_l, ch) = capacity-Charged c cat x location (pos x.quantity) s h1 in
          or_throw-then s1 (c.cast location) _ _ h λ k cast_k h.
            execute-then s1 (update_stock x.id (put_at k)) _ h λ t2 e2 h.
              update_stock-then x.id (put_at k) s1.tables
                (subst (λ l. find_row stock_key x.id l ≡ some x) (sym ch.stocks) e)
                (λ y q. ground arith) e2
                λ y q u stay.
                  let ey : y ≡ record x { location_id = some l } = ground (arith, cast_l, cast_k) in
                  let same = emit-tables _ c _ _ h in
                  (
                    subst Inv (sym same) (Inv-place v e ex ch u stay ey),
                    subst (Placed c payload s.tables) (sym same)
                        (Charged-Placed c payload s reads_x cast_l e ex ch u stay ey),
                  )

  -- A placement that succeeds on consistent tables leaves them consistent. Either the lot of the payload
  -- has a location already or no units, and the tables are as they were; or the lot waited for a
  -- location and is put at that of the payload, of which the ledger grows by the weight and the volume
  -- of all its units, and the other lots and the other ledgers are as they were.
  pub place-Placed :
      Inv s.tables
      → place c cat payload s ≡ (ok tt, s')
      → Inv s'.tables
        × (((s'.tables ≡ s.tables) × Idle c payload s.tables) ⊎ Placed c payload s.tables s'.tables)
  unfolding place
  place-Placed v h = stock-then c (string_at payload "stockId") _ s h λ x reads e h.
      throw_if-then s (not (str_eq (c.text x.warehouse_id) (string_at payload "warehouseId"))) _ _ h
        λ _ h.
          if-then s (is_some x.location_id || x.quantity == 0) (pure tt)
            (place_at c cat x (string_at payload "locationId")) h
            (λ idle h.
              let same = ap (λ (s : Store Tables). s.tables) (pure-tables s tt h) in
              (
                subst Inv (sym same) v,
                inl (
                  same,
                  record { lot = x; reads = reads; found = e; idle = ground (arith, idle) },
                ),
              ))
            (λ waits h.
              let (v', done) = place_at-done v x reads e (ground (arith, waits)) h in
              (v', inr done))

  -- Placing a lot keeps the tables consistent.
  pub place-Inv : Inv s.tables → place c cat payload s ≡ (ok tt, s') → Inv s'.tables
  place-Inv v h = (place-Placed v h).0
