-- ===== src/Inventory/Routes/Laws.antt =====
-- What the list of the lots shows.
use logicore_wms.Base.{
  ℕ, String, true, false, List, ◌≡◌, ◌<◌, ◌≤◌, ◌∙◌, arith, All, All-imp, All-keep, Ordered,
  sum_by-keep, keep, map, sum_by, take, str_eq, eq_iff, ◌⊎◌, ◌||◌,
}
use logicore_wms.Base.Sort.{sort_by, All-sort, sum_by-sort, sort-IsSorted, IsSorted-Ordered}
use logicore_wms.Platform.Types.{Context, ok}
use logicore_wms.Platform.Json.{Payload}
use logicore_wms.Platform.Query.{Driver, IsSound, query-view, check_optional}
use logicore_wms.Inventory.Stock.{Stock}
use logicore_wms.Inventory.Tables.{Tables}
use logicore_wms.Inventory.Lots.{older}
use logicore_wms.Inventory.Routes.{Request, param, is_asked, listed, list}

older-connected : (x y : Stock) → older x y ≡ false → older y x ≡ true
older-connected x y h = ground arith

older_trans : (x y z : Stock) → older x y ≡ true → older y z ≡ true → older x z ≡ true
older_trans x y z h k = ground arith

-- The first lot came earlier, or at the same time and has no greater identifier.
abbrev pub IsOlder : Stock → Stock → Type 0
IsOlder x y = (x.created_at < y.created_at) ⊎ ((x.created_at ≡ y.created_at) × (x.id ≤ y.id))

older-IsOlder : (x y : Stock) → older x y ≡ true → IsOlder x y
older-IsOlder x y h = ground arith

-- What is asked of an identifier: nothing, or that its text is this one, letter for letter.
abbrev pub IsText : Context → String → ℕ → Type 0
IsText c wanted k = (wanted ≡ "") ⊎ (c.text k ≡ wanted)

abbrev pub IsWanted : Context → String → String → Stock → Type 0
IsWanted c product warehouse x = IsText c product x.product_id × IsText c warehouse x.warehouse_id

text-IsText :
    (c : Context) (wanted : String) (k : ℕ)
    → (str_eq wanted "" || str_eq (c.text k) wanted) ≡ true
    → IsText c wanted k
text-IsText c wanted k h = ground (arith, h, eq_iff wanted "", eq_iff (c.text k) wanted)

IsText-text :
    (c : Context) (wanted : String) (k : ℕ)
    → IsText c wanted k
    → (str_eq wanted "" || str_eq (c.text k) wanted) ≡ true
IsText-text c wanted k h = ground (arith, h, eq_iff wanted "", eq_iff (c.text k) wanted)

asked-IsWanted :
    (c : Context) (product warehouse : String) (x : Stock)
    → is_asked c product warehouse x ≡ true
    → IsWanted c product warehouse x
asked-IsWanted c product warehouse x h = (
  text-IsText c product x.product_id (ground (arith, h)),
  text-IsText c warehouse x.warehouse_id (ground (arith, h)),
)

unasked :
    (c : Context) (product warehouse : String) (x : Stock)
    → is_asked c product warehouse x ≡ false
    → IsWanted c product warehouse x
    → ⊥
unasked c product warehouse x h (p, w) =
    ground
      (arith, h, IsText-text c product x.product_id p, IsText-text c warehouse x.warehouse_id w)

-- If the identifiers of the request are left out or well formed, and the database answers, the list
-- shows the first 500 of some rows, which are ordered by the time of their creation and, at the same
-- time, by their identifiers. They are the lots of which the texts of the product and the warehouse
-- are those of the request, letter for letter, where it has them: none is left out and none comes
-- twice, since whatever is counted of such lots alone comes to the same over the rows and the stocks.
pub list-Ordered :
    {B : Type 0} (c : Context) (d : Driver Stock Payload) (q : Request B) (t : Tables)
    (g : Stock → ℕ)
    → IsSound d
    → check_optional c (param q "product" "productId") ≡ ok tt
    → check_optional c (param q "warehouse" "warehouseId") ≡ ok tt
    → ((x : Stock)
        → (IsWanted c (param q "product" "productId") (param q "warehouse" "warehouseId") x → ⊥)
        → g x ≡ 0)
    → (rows : List Stock) × (list c d q t ≡ ok (map d.view (take 500 rows)))
      × All (IsWanted c (param q "product" "productId") (param q "warehouse" "warehouseId")) rows
      × Ordered IsOlder rows
      × (sum_by g rows ≡ sum_by g t.stocks)
unfolding list listed
list-Ordered c d q t g sound ok_product ok_warehouse counts =
    let product = param q "product" "productId" in
    let warehouse = param q "warehouse" "warehouseId" in
    let test = is_asked c product warehouse in
    let asked = keep test t.stocks in
    let rows = sort_by older asked in
    (
      rows,
      rw (ok_product, ok_warehouse) (query-view d sound (take 500 rows)),
      All-sort older (IsWanted c product warehouse) asked
          (All-imp (asked-IsWanted c product warehouse) asked (All-keep test t.stocks)),
      IsSorted-Ordered older IsOlder older-IsOlder rows
          (sort-IsSorted older older-connected older_trans asked),
      sum_by-sort older g asked
          ∙ sum_by-keep test g t.stocks (λ x h. counts x (unasked c product warehouse x h)),
    )
