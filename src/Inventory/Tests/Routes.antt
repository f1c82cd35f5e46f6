-- ===== src/Inventory/Tests/Routes.antt =====
-- The list of lots of the small site.
use logicore_wms.Base.{
  ℕ, All, Ordered, Bool, false, if◌then◌else◌, str_eq, eq_iff, inl, inr, take, sum_by, List, [],
  ◌∷◌, ◌≡◌, refl, map, true,
}
use logicore_wms.Samples.{site}
use logicore_wms.Platform.Types.{ok, invalid, err, Result}
use logicore_wms.Platform.Json.{Payload, text}
use logicore_wms.Platform.Query.{Driver, IsSound, handed}
use logicore_wms.Inventory.Stock.{Stock}
use logicore_wms.Inventory.Routes.{Request, param, list}
use logicore_wms.Inventory.Routes.Laws.{IsWanted, IsOlder, list-Ordered}
use logicore_wms.Inventory.Tests.{placed}

-- Of a row only the batch is shown.
abbrev driver : Driver Stock Payload
driver = record {
  fetch = λ rows. ok (handed (λ x. x.batch) rows);
  row_text = λ x. x.batch;
  decode = λ s. ok (("batchNumber", text s) ∷ []);
  view = λ x. ("batchNumber", text x.batch) ∷ [];
}

driver-IsSound : IsSound driver
driver-IsSound = record { answers = λ rows. refl; reads = λ x. refl }

abbrev asking : Request Payload
asking = record {
  path = λ name. if str_eq name "product" then site.text 1 else "";
  query = λ _. "";
  key = "";
  decoded = ok [];
  at_end = true;
}

-- The units of the product that is asked for.
abbrev asked_units : Stock → ℕ
asked_units x = if str_eq (site.text x.product_id) (site.text 1) then x.quantity else 0

asked_units-unasked : (x : Stock) → (IsWanted site (site.text 1) "" x → ⊥) → asked_units x ≡ 0
asked_units-unasked x other = go (str_eq (site.text x.product_id) (site.text 1)) refl
  where
    go :
        (b : Bool)
        → str_eq (site.text x.product_id) (site.text 1) ≡ b
        → (if b then x.quantity else 0) ≡ 0
    go true h = absurd (other (inr ((eq_iff (site.text x.product_id) (site.text 1)).0 h), inl refl))
    go false h = refl

list-Ordered_example :
    (rows : List Stock) × (list site driver asking placed.tables
      ≡ ok (map driver.view (take 500 rows)))
    × All
        (IsWanted site
          (param asking "product" "productId")
          (param asking "warehouse" "warehouseId"))
        rows
    × Ordered IsOlder rows
    × (sum_by asked_units rows ≡ sum_by asked_units placed.tables.stocks)
unfolding logicore_wms.Platform.Types.id_check
list-Ordered_example =
    list-Ordered site driver asking placed.tables asked_units driver-IsSound refl refl
      asked_units-unasked
