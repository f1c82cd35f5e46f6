-- ===== src/Inventory/Routes.antt =====
-- The routes of services/inventory-service/internal/application/service.go. A request is what
-- `net/http` makes of it; what the decoder of `Body` finds is a parameter.
pub mod Laws
use logicore_wms.Base.{
  ℕ, String, Bool, true, false, Option, none, some, List, ◌&&◌, ◌||◌, ◌==◌, ltb, leb, take, keep,
  if◌then◌else◌, str_eq,
}
use logicore_wms.Base.Sort.{sort_by}
use logicore_wms.Platform.Types.{Context, internal, Result, ok, err, after, id_check}
use logicore_wms.Platform.Json.{Payload}
use logicore_wms.Platform.Tx.{Store, Tx, lift, ◌>>=◌}
use logicore_wms.Platform.Http.{body}
use logicore_wms.Platform.Query.{Driver, query, first_row, row_key, check_optional}
use logicore_wms.Platform.Commands.{Codec, command}
use logicore_wms.Inventory.Stock.{Stock}
use logicore_wms.Inventory.Tables.{Tables}
use logicore_wms.Inventory.Capacity.{Catalog}
use logicore_wms.Inventory.Lots.{older}
use logicore_wms.Inventory.Changes.{Receive, Change, Action, receive, change}

-- `PathValue`, the values of the URL's query, the header `Idempotency-Key`, and the result of the
-- body's decoder with whether nothing follows.
pub record Request (B : Type 0) : Type 0 where
  pub path : String → String
  pub query : String → String
  pub key : String
  pub decoded : Result B
  pub at_end : Bool

-- A value of the path, or else of the query.
abbrev pub param : {B : Type 0} → Request B → String → String → String
param q name other = if str_eq (q.path name) "" then q.query other else q.path name

-- `($1='' or "productId"::text=$1) and ($2='' or "warehouseId"::text=$2)`
abbrev pub is_asked : Context → String → String → Stock → Bool
is_asked c product warehouse x =
    (str_eq product "" || str_eq (c.text x.product_id) product)
    && (str_eq warehouse "" || str_eq (c.text x.warehouse_id) warehouse)

-- `select … from stock_view … order by "createdAt",id limit 500`
unfoldable pub listed : Context → String → String → List Stock → List Stock
listed c product warehouse stocks =
    take 500 (sort_by older (keep (is_asked c product warehouse) stocks))

-- `list`
unfoldable pub list :
    {B : Type 0} → Context → Driver Stock Payload → Request B → Tables → Result (List Payload)
list c d q t =
    let product = param q "product" "productId" in
    let warehouse = param q "warehouse" "warehouseId" in
    after (check_optional c product) λ _.
      after (check_optional c warehouse)
        λ _. query d.decode (d.fetch (listed c product warehouse t.stocks))

-- `GET /inventory/lots/{id}`
unfoldable pub lot :
    {B : Type 0} → Context → Driver Stock Payload → Request B → Tables → Result Payload
lot c d q t = after (id_check c (q.path "id")) λ _. after (row_key c (q.path "id")) λ k.
    after (query d.decode (d.fetch (keep (λ x. x.id == k) t.stocks))) (first_row "Stock not found")

-- `POST /inventory/receive`
unfoldable pub post_receive :
    Context → Catalog → Codec Receive Stock → Request Receive → Tx Tables Stock
post_receive c cat codec q = do
  v ← lift (body q.decoded q.at_end)
  command codec q.key v (receive c cat v)

-- `POST /inventory/move`, `POST /inventory/write-off`, `POST /inventory/adjust`
unfoldable pub post_change :
    Context
    → Catalog
    → Codec (Action × Change) Payload
    → Action
    → Request Change
    → Tx Tables Payload
post_change c cat codec action q = do
  v ← lift (body q.decoded q.at_end)
  command codec q.key (action, v) (change c cat action v)
