-- ===== src/Audit/Listing.antt =====
-- `list` of services/audit-service/internal/application/service.go, and the route of one event. The
-- text that PostgreSQL makes of a JSON value that is no text is a parameter.
use Prim.Native.String.{◌++◌}
use logicore_wms.Base.{
  ℕ, zero, suc, ◌+◌, String, Bool, true, false, Option, none, some, List, [], ◌∷◌, ◌||◌, ◌&&◌, ltb,
  leb, ◌==◌, take, drop, keep, if◌then◌else◌, str_eq,
}
use logicore_wms.Base.Int.{ℤ, pos_part}
use logicore_wms.Base.Sort.{sort_by}
use logicore_wms.Platform.Types.{Context, fault, internal, Result, ok, err, after, id_check}
use logicore_wms.Platform.Json.{Json, Items, Payload, null, text, arr, obj, nil, cons, get}
use logicore_wms.Platform.Names.{name_of}
use logicore_wms.Platform.Query.{Driver, query, first_row, row_key}
use logicore_wms.Inventory.Lots.{member}
use logicore_wms.Audit.{Entry, page}

abbrev pub is_text : Option String → String → Bool
is_text none s = false
is_text (some v) s = str_eq v s

-- `jsonb_array_elements(coalesce(payload->'items','[]'::jsonb))`, which takes arrays only. A field that
-- is missing gives none; one that is null is no array.
unfoldable pub items_in : Payload → Option Items
items_in [] = some nil
items_in ((k, v) ∷ m) = if str_eq k "items" then array_of v else items_in m
  where
    array_of : Json → Option Items
    array_of (arr items) = some items
    array_of _ = none

module _ (show : Json → String) where
  -- `v->>'…'` for the value of the field.
  abbrev pub text_of : Json → Option String
  text_of null = none
  text_of (text s) = some s
  text_of v = some (show v)

  abbrev pub item_is : String → Json → Bool
  item_is product (obj m) = is_text (text_of (member "productId" m)) product
  item_is product _ = false

  -- `exists(select 1 from jsonb_array_elements(…) item where item->>'productId'=$1)`
  unfoldable pub any_item : String → Items → Bool
  any_item product nil = false
  any_item product (cons v items) = item_is product v || any_item product items

  abbrev pub of_items : String → Option Items → Result Bool
  of_items product none = err (internal "cannot extract elements from a scalar")
  of_items product (some items) = ok (any_item product items)

  -- The operands of `or`, from the left.
  unfoldable pub has_product : String → Payload → Result Bool
  has_product product p =
      if str_eq product "" || is_text (text_of (get "productId" p)) product
      then ok true
      else of_items product (items_in p)

  -- `($2='' or payload->>'warehouseId'=$2) and ($3='' or event_type=$3)`
  abbrev pub is_among : String → String → Entry → Bool
  is_among warehouse kind x =
      (str_eq warehouse "" || is_text (text_of (get "warehouseId" x.payload)) warehouse)
      && (str_eq kind "" || str_eq (name_of x.event_type) kind)

  -- The `where` of the query. SQL leaves the order of its conditions open; the one with a subquery is
  -- taken last, as by the planner, which orders them by their costs.
  abbrev pub selects : String → String → String → Entry → Result Bool
  selects product warehouse kind x =
      if is_among warehouse kind x then has_product product x.payload else ok false

  -- The rows for which it holds.
  unfoldable pub matching : String → String → String → List Entry → Result (List Entry)
  matching product warehouse kind [] = ok []
  matching product warehouse kind (x ∷ l) =
      after (selects product warehouse kind x)
        λ b. after (matching product warehouse kind l) λ rest. ok (if b then x ∷ rest else rest)

  -- The first `n` of them; the rows that come after them are not looked at.
  unfoldable pub scan : String → String → String → ℕ → List Entry → Result (List Entry)
  scan product warehouse kind zero l = ok []
  scan product warehouse kind (suc n) [] = ok []
  scan product warehouse kind (suc n) (x ∷ l) =
      let rest = scan product warehouse kind n l in
      let more = scan product warehouse kind (suc n) l in
      after (selects product warehouse kind x)
        λ b. if b then (after rest λ found. ok (x ∷ found)) else more

-- `order by timestamp,id`
abbrev pub earlier : Entry → Entry → Bool
earlier x y =
    if ltb x.timestamp y.timestamp
    then true
    else if ltb y.timestamp x.timestamp
    then false
    else leb x.id y.id

-- How PostgreSQL gets at the rows: it evaluates the condition for all of them and sorts, or it follows the
-- index `audit_timestamp` and stops when it has as many as are wanted.
pub data Plan : Type 0 where
  sorting following : Plan

-- `… where … order by timestamp,id` with at most `n` rows.
unfoldable pub searched :
    (Json → String)
    → Plan
    → (product warehouse kind : String) → ℕ
    → List Entry
    → Result (List Entry)
searched show sorting product warehouse kind n l =
    after (matching show product warehouse kind l) λ found. ok (take n (sort_by earlier found))
searched show following product warehouse kind n l =
    scan show product warehouse kind n (sort_by earlier l)

-- `fmt.Errorf("audit query: %w", e)`, in which a fault is still found.
abbrev pub wrapped : {A : Type 0} → Result A → Result A
wrapped (ok a) = ok a
wrapped (err (internal m)) = err (internal ("audit query: " ++ m))
wrapped (err (fault f)) = err (fault f)

-- `list`; `limit n offset m` wants `m + n` rows and leaves `m` of them out.
unfoldable pub list :
    (Json → String)
    → Plan
    → Context
    → (String → Option ℤ)
    → Driver Entry Payload
    → (product warehouse kind limit offset : String) → List Entry
    → Result (List Payload)
list show plan c atoi d product warehouse kind limit offset l =
    after (page c atoi product warehouse limit offset) λ p. wrapped (
      after (searched show plan product warehouse kind (pos_part p.1 + pos_part p.0) l)
        λ found. query d.decode (d.fetch (drop (pos_part p.1) found)))

-- `GET /audit/events/{id}`
unfoldable pub entry : Context → Driver Entry Payload → String → List Entry → Result Payload
entry c d id l = after (id_check c id) λ _.
    after (row_key c id)
      λ k. after (query d.decode (d.fetch (keep (λ x. x.id == k) l))) (first_row "Event not found")
