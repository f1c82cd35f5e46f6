-- ===== src/Platform/Json.antt =====
-- The JSON values that events carry (`map[string]any`), and the readers `String`, `Number` and
-- `Decode` of libs/platform/types.go. A `float` is counted in units of 10^-9.
pub mod Put
pub mod Fold
use logicore_wms.Base.{ℕ, String, Bool, List, [], ◌∷◌, ◌*◌, if◌then◌else◌, str_eq}
use logicore_wms.Base.Int.{ℤ, pos, negsuc, neg_part, neg}

mutual
  pub data Json : Type 0 where
    null : Json
    bool : Bool → Json
    int : ℤ → Json
    float : ℤ → Json
    text : String → Json
    arr : Items → Json
    obj : Fields → Json

  pub data Items : Type 0 where
    nil : Items
    cons : Json → Items → Items

  pub data Fields : Type 0 where
    end : Fields
    field : String → Json → Fields → Fields

-- `map[string]any`
abbrev pub Payload : Type 0
Payload = List (String × Json)

unfoldable pub get : String → Payload → Json
get k [] = null
get k ((j, v) ∷ m) = if str_eq j k then v else get k m

-- `payload[k] = v`
unfoldable pub put : String → Json → Payload → Payload
put k v [] = (k, v) ∷ []
put k v ((j, w) ∷ m) = if str_eq j k then (k, v) ∷ m else (j, w) ∷ put k v m

abbrev pub as_string : Json → String
as_string (text s) = s
as_string _ = ""

-- `String`
unfoldable pub string_at : Payload → String → String
unfolding get
string_at p k = as_string (get k p)

abbrev pub unit : ℕ
unit = 1000000000

-- `float64(n)`
abbrev pub to_float : ℤ → ℤ
to_float n = elim n [ pos k ↦ pos (k * unit) | negsuc k ↦ neg ((neg_part (negsuc k)) * unit) ]

abbrev pub as_number : Json → ℤ
as_number (float v) = v
as_number (int n) = to_float n
as_number _ = pos 0

-- `Number`
unfoldable pub number_at : Payload → String → ℤ
unfolding get
number_at p k = as_number (get k p)
