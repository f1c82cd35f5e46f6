-- ===== src/Platform/Json/Put.antt =====
-- Reading an object after `payload[k] = v`.
use logicore_wms.Base.{
  String, false, [], ◌∷◌, ◌≡◌, refl, sym, ap, subst, inl, inr, str_eq, eq_iff, eq_refl, Bool-cases,
  if◌then◌else◌,
}
use logicore_wms.Platform.Json.{Json, Payload, get, put}

pub get-put : (k : String) (v : Json) (p : Payload) → get k (put k v p) ≡ v
unfolding get put
get-put k v [] = rw (eq_refl k) refl
get-put k v ((j, w) ∷ p) = elim (Bool-cases (str_eq j k)) [
  | inl here ↦ rw (here, eq_refl k) refl
  | inr there ↦ rw (there, there) (get-put k v p)
]

pub get-put-ne :
    (k i : String) (v : Json) (p : Payload) → str_eq k i ≡ false → get i (put k v p) ≡ get i p
unfolding get put
get-put-ne k i v [] n = rw n refl
get-put-ne k i v ((j, w) ∷ p) n = elim (Bool-cases (str_eq j k)) [
  | inl here ↦
      let e : str_eq j i ≡ false = subst (λ x. str_eq x i ≡ false) (sym ((eq_iff j k).0 here)) n in
      rw (here, n, e) refl
  | inr there ↦ rw there (ap (λ x. if str_eq j i then w else x) (get-put-ne k i v p n))
]
