-- ===== src/Inventory/Lots.antt =====
-- The lots that a reservation may draw on, first expired first out: the query in `reserve` of
-- services/inventory-service/internal/application/reservations.go, and the reading of the requested
-- lines (`p.Decode[[]d.Line]`, which keeps the rules of encoding/json).
pub mod Order
use logicore_wms.Base.{
  ℕ, String, Bool, true, false, Option, none, some, List, [], ◌∷◌, ◌-◌, ◌/◌, ◌%◌, ◌&&◌, ltb, leb,
  ◌==◌, map, keep, is_some, if◌then◌else◌, str_eq,
}
use logicore_wms.Base.Int.{leb_ℤ, ℤ, pos, negsuc, neg, neg_part}
use logicore_wms.Base.Rows.{cons_to}
use logicore_wms.Base.Sort.{sort_by, insert_by}
use logicore_wms.Platform.Json.{
  Json, Items, Fields, null, int, float, text, arr, obj, nil, cons, end, field, unit,
}
use logicore_wms.Platform.Json.Fold.{equal_fold, is_up_to}
use logicore_wms.Inventory.Stock.{Stock, Line}

pub record Lot : Type 0 where
  pub id : ℕ
  pub n : ℕ

-- `expiration_date is null or expiration_date>current_date`
abbrev pub is_fresh : ℕ → Option ℕ → Bool
is_fresh today none = true
is_fresh today (some d) = ltb today d

-- The `where` of the query.
unfoldable pub is_eligible : ℕ → ℕ → ℕ → Stock → Bool
is_eligible today warehouse product x =
    x.warehouse_id == warehouse
    && x.product_id == product
    && is_some x.location_id
    && ltb x.reserved x.quantity
    && is_fresh today x.expiration

-- `created_at,id`
abbrev pub older : Stock → Stock → Bool
older x y =
    if ltb x.created_at y.created_at
    then true
    else if ltb y.created_at x.created_at
    then false
    else leb x.id y.id

-- `order by expiration_date nulls last,created_at,id`
abbrev pub before_by : Option ℕ → Option ℕ → Bool → Bool
before_by none none b = b
before_by none (some _) b = false
before_by (some _) none b = true
before_by (some d) (some e) b = if ltb d e then true else if ltb e d then false else b

unfoldable pub comes_before : Stock → Stock → Bool
comes_before x y = before_by x.expiration y.expiration (older x y)

abbrev pub lot_of : Stock → Lot
lot_of x = record { id = x.id; n = x.quantity - x.reserved }

unfoldable pub lots_for : ℕ → ℕ → ℕ → List Stock → List Lot
lots_for today warehouse product stocks =
    map lot_of (sort_by comes_before (keep (is_eligible today warehouse product) stocks))

-- The value of a field, `null` if it is missing.
unfoldable pub member : String → Fields → Json
member k end = null
member k (field j v m) = if str_eq j k then v else member k m

abbrev entries : Fields → List (String × Json)
entries end = []
entries (field j v m) = (j, v) ∷ entries m

-- The fields that have a name whatever its case, in the order in which they are decoded.
unfoldable pub named : String → Fields → List (String × Json)
unfolding sort_by insert_by equal_fold
named k m = sort_by (λ a b. is_up_to a.0 b.0) (keep (λ a. equal_fold a.0 k) (entries m))

unfoldable pub decode_string : Json → Option String
decode_string (text s) = some s
decode_string _ = none

-- An int64, which has no fraction.
abbrev in_int64 : ℤ → Option ℤ
in_int64 n =
    if leb_ℤ n (pos 9223372036854775807) && leb_ℤ (negsuc 9223372036854775807) n
    then some n
    else none

unfoldable pub decode_int : Json → Option ℤ
decode_int (int n) = in_int64 n
decode_int (float (pos v)) = if v % unit == 0 then in_int64 (pos (v / unit)) else none
decode_int (float (negsuc v)) =
    if neg_part (negsuc v) % unit == 0 then in_int64 (neg (neg_part (negsuc v) / unit)) else none
decode_int _ = none

-- One value after another is put into a field; `null` leaves it as it is.
unfoldable pub assign : {A : Type 0} → (Json → Option A) → A → List (String × Json) → Option A
assign decode a [] = some a
assign decode a ((j, null) ∷ l) = assign decode a l
assign decode a ((j, v) ∷ l) = elim (decode v) [ none ↦ none | some b ↦ assign decode b l ]

abbrev pair_up : Option String → Option ℤ → Option Line
pair_up none q = none
pair_up (some p) none = none
pair_up (some p) (some q) = some (record { product_id = p; quantity = q })

unfoldable pub decode_line : Json → Option Line
unfolding named decode_string decode_int assign
decode_line (obj m) =
    pair_up (assign decode_string "" (named "productId" m))
      (assign decode_int (pos 0) (named "quantity" m))
decode_line null = some (record { product_id = ""; quantity = pos 0 })
decode_line _ = none

abbrev both_lines : Option Line → Option (List Line) → Option (List Line)
both_lines none r = none
both_lines (some l) r = cons_to l r

unfoldable pub decode_items : Items → Option (List Line)
unfolding decode_line
decode_items nil = some []
decode_items (cons v items) = both_lines (decode_line v) (decode_items items)

unfoldable pub decode_lines : Json → Option (List Line)
unfolding decode_items
decode_lines (arr items) = decode_items items
decode_lines null = some []
decode_lines _ = none
