-- ===== src/Platform/Json/Fold.antt =====
-- The names of fields in encoding/json: they match whatever the case of their ASCII letters, which are all
-- that the names of the fields here have a case of.
use Prim.Native.Char.{code}
use Prim.Native.String.{String, [], ◌∷◌, compare}
use text.Mathlib.Text.{is_le}
use logicore_wms.Base.{ℕ, Bool, true, false, ◌+◌, ◌&&◌, ◌==◌, leb, if◌then◌else◌}

-- The code of a letter in lower case.
abbrev lower : ℕ → ℕ
lower n = if leb 65 n && leb n 90 then n + 32 else n

-- `strings.EqualFold`
unfoldable pub equal_fold : String → String → Bool
equal_fold [] [] = true
equal_fold [] (d ∷ t) = false
equal_fold (c ∷ s) [] = false
equal_fold (c ∷ s) (d ∷ t) = lower (code c) == lower (code d) && equal_fold s t

-- The order in which `Marshal` writes the keys of a map.
abbrev pub is_up_to : String → String → Bool
is_up_to s t = is_le (compare s t)
