-- ===== src/Inventory/Lots/Order.antt =====
-- The lots of a line are those that may be drawn on, in the order in which they are.
use logicore_wms.Base.{
  ℕ, true, false, Option, none, some, List, ◌≡◌, ◌<◌, ◌≤◌, ◌∙◌, refl, arith, keep, map, sum_by,
  is_some, All, All-imp, All-keep, Bool, Bool-cases, ltb, Ordered, sum_by-keep, ◌⊎◌, inl, inr,
}
use logicore_wms.Inventory.Stock.{Stock}
use logicore_wms.Inventory.Lots.{
  before_by, older, is_fresh, lot_of, is_eligible, comes_before, lots_for,
}
use logicore_wms.Base.Sort.{sort_by, sort-IsSorted, sum_by-sort, All-sort, IsSorted-Ordered}

abbrev Lasts : ℕ → Option ℕ → Type 0
Lasts today none = Unit
Lasts today (some d) = today < d

-- A lot that a line may draw on: of the product and the warehouse, at a location, not all reserved,
-- and without a date of expiration or with one that is still to come.
pub record Usable (today warehouse product : ℕ) (x : Stock) : Type 0 where
  pub of_warehouse : x.warehouse_id ≡ warehouse
  pub of_product : x.product_id ≡ product
  pub located : is_some x.location_id ≡ true
  pub free : x.reserved < x.quantity
  pub lasts : Lasts today x.expiration

abbrev Sooner : Option ℕ → Option ℕ → Type 0
Sooner (some d) (some e) = d < e
Sooner (some d) none = Unit
Sooner none e = ⊥

-- The first lot expires sooner (one that never expires comes last), or with the other and came
-- earlier, or at the same time and has no greater identifier.
abbrev pub Precedes : Stock → Stock → Type 0
Precedes x y =
    Sooner x.expiration y.expiration
    ⊎ ((x.expiration ≡ y.expiration)
        × ((x.created_at < y.created_at) ⊎ ((x.created_at ≡ y.created_at) × (x.id ≤ y.id))))

comes_before-connected : (x y : Stock) → comes_before x y ≡ false → comes_before y x ≡ true
unfolding comes_before
comes_before-connected x y h = ground arith

comes_before_trans :
    (x y z : Stock) → comes_before x y ≡ true → comes_before y z ≡ true → comes_before x z ≡ true
unfolding comes_before
comes_before_trans x y z h k = ground arith

older-Precedes :
    (x y : Stock)
    → older x y ≡ true
    → (x.created_at < y.created_at) ⊎ ((x.created_at ≡ y.created_at) × (x.id ≤ y.id))
older-Precedes x y h = ground arith

comes_before-Precedes : (x y : Stock) → comes_before x y ≡ true → Precedes x y
unfolding comes_before
comes_before-Precedes x y h = go x.expiration y.expiration (older x y) (older-Precedes x y) h
  where
    go :
        (d e : Option ℕ) (b : Bool) {P : Type 0}
        → (b ≡ true → P)
        → before_by d e b ≡ true
        → Sooner d e ⊎ ((d ≡ e) × P)
    go none none b f h = inr (refl, f h)
    go none (some e) b f h = cc
    go (some d) none b f h = inl tt
    go (some d) (some e) b f h = elim (Bool-cases (ltb d e)) [
      | inl less ↦ inl (ground (arith, less))
      | inr there ↦ elim (Bool-cases (ltb e d)) [
        | inl more ↦ absurd (ground (arith, there, more, h))
        | inr same ↦ inr (ground (arith, there, same), f (ground (arith, there, same, h)))
      ]
    ]

pub is_eligible-Usable :
    (today warehouse product : ℕ) (x : Stock)
    → is_eligible today warehouse product x ≡ true
    → Usable today warehouse product x
unfolding is_eligible
is_eligible-Usable today warehouse product x h = record {
  of_warehouse = ground (arith, h);
  of_product = ground (arith, h);
  located = ground (arith, h);
  free = ground (arith, h);
  lasts = go x.expiration (ground (arith, h));
}
  where
    go : (e : Option ℕ) → is_fresh today e ≡ true → Lasts today e
    go none h = tt
    go (some d) h = ground (arith, h)

Usable-is_eligible :
    (today warehouse product : ℕ) (x : Stock)
    → Usable today warehouse product x
    → is_eligible today warehouse product x ≡ true
unfolding is_eligible
Usable-is_eligible today warehouse product x u =
    ground (arith, u.of_warehouse, u.of_product, u.located, u.free, go x.expiration u.lasts)
  where
    go : (e : Option ℕ) → Lasts today e → is_fresh today e ≡ true
    go none h = refl
    go (some d) h = ground (arith, h)

-- The lots of a line are usable rows, each with what is free of it: a lot that expires sooner comes
-- first, one without a date of expiration last, and of lots that expire together the oldest first.
-- None is left out and none comes twice: whatever is counted of the usable stocks alone comes to the
-- same over the rows and over the stocks.
pub lots_for-Ordered :
    (today warehouse product : ℕ) (stocks : List Stock) (g : Stock → ℕ)
    → ((x : Stock) → (Usable today warehouse product x → ⊥) → g x ≡ 0)
    → (rows : List Stock) × (lots_for today warehouse product stocks ≡ map lot_of rows)
      × All (Usable today warehouse product) rows
      × Ordered Precedes rows
      × (sum_by g rows ≡ sum_by g stocks)
unfolding lots_for
lots_for-Ordered today warehouse product stocks g counts =
    let test = is_eligible today warehouse product in
    let rows = keep test stocks in
    (
      sort_by comes_before rows,
      refl,
      All-sort comes_before (Usable today warehouse product) rows
          (All-imp (is_eligible-Usable today warehouse product) rows (All-keep test stocks)),
      IsSorted-Ordered comes_before Precedes comes_before-Precedes (sort_by comes_before rows)
          (sort-IsSorted comes_before comes_before-connected comes_before_trans rows),
      sum_by-sort comes_before g rows ∙ sum_by-keep test g stocks (λ x h. counts x (refused x h)),
    )
  where
    refused :
        (x : Stock)
        → is_eligible today warehouse product x ≡ false
        → Usable today warehouse product x
        → ⊥
    refused x h u = ground (arith, h, Usable-is_eligible today warehouse product x u)
