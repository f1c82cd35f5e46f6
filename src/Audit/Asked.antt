-- ===== src/Audit/Asked.antt =====
-- The events that the condition of `list` asks for.
use logicore_wms.Base.{
  String, Bool, true, false, Option, none, some, ◌≡◌, ◌⊎◌, ◌∙◌, sym, inl, inr, refl, ap, arith,
  ◌||◌, ◌&&◌, str_eq, eq_iff, eq_refl, Bool-cases, if◌then◌else◌,
}
use logicore_wms.Platform.Types.{ok}
use logicore_wms.Platform.Json.{Json, Items, null, bool, int, float, text, arr, obj, nil, cons, get}
use logicore_wms.Platform.Names.{name_of}
use logicore_wms.Inventory.Lots.{member}
use logicore_wms.Audit.{Entry}
use logicore_wms.Audit.Listing.{
  is_text, text_of, items_in, item_is, any_item, of_items, has_product, is_among,
}
use logicore_wms.Audit.Plans.{is_selected, is_ok_true}

is_text-some : (o : Option String) (s : String) → is_text o s ≡ true → o ≡ some s
is_text-some none s h = cc
is_text-some (some v) s h = ap some ((eq_iff v s).0 h)

some-is_text : (o : Option String) (s : String) → o ≡ some s → is_text o s ≡ true
some-is_text o s h = rw h (eq_refl s)

module _ (show : Json → String) (product warehouse kind : String) where
  -- An item that names the product.
  abbrev IsItem : Json → Type 0
  IsItem (obj m) = text_of show (member "productId" m) ≡ some product
  IsItem _ = ⊥

  abbrev IsAmong : Items → Type 0
  IsAmong nil = ⊥
  IsAmong (cons v items) = IsItem v ⊎ IsAmong items

  abbrev IsListed : Option Items → Type 0
  IsListed none = ⊥
  IsListed (some items) = IsAmong items

  -- What is asked of an event, where it is asked for: its type, its warehouse, and that it has the product
  -- in a field of its own or in one of its items.
  pub record IsAsked (x : Entry) : Type 0 where
    pub of_kind : (kind ≡ "") ⊎ (name_of x.event_type ≡ kind)
    pub of_warehouse :
        (warehouse ≡ "") ⊎ (text_of show (get "warehouseId" x.payload) ≡ some warehouse)
    pub of_product :
        (product ≡ "")
        ⊎ ((text_of show (get "productId" x.payload) ≡ some product)
            ⊎ IsListed (items_in x.payload))

  names-IsItem : (v : Json) → item_is show product v ≡ true → IsItem v
  names-IsItem (obj m) h = is_text-some (text_of show (member "productId" m)) product h
  names-IsItem null h = cc
  names-IsItem (bool b) h = cc
  names-IsItem (int n) h = cc
  names-IsItem (float n) h = cc
  names-IsItem (text s) h = cc
  names-IsItem (arr items) h = cc

  IsItem-names : (v : Json) → IsItem v → item_is show product v ≡ true
  IsItem-names (obj m) h = some-is_text (text_of show (member "productId" m)) product h
  IsItem-names null h = absurd h
  IsItem-names (bool b) h = absurd h
  IsItem-names (int n) h = absurd h
  IsItem-names (float n) h = absurd h
  IsItem-names (text s) h = absurd h
  IsItem-names (arr items) h = absurd h

  any-IsAmong : (items : Items) → any_item show product items ≡ true → IsAmong items
  unfolding any_item
  any-IsAmong nil h = cc
  any-IsAmong (cons v items) h = elim (Bool-cases (item_is show product v)) [
    | inl here ↦ inl (names-IsItem v here)
    | inr there ↦ inr (any-IsAmong items (rw there at h))
  ]

  IsAmong-any : (items : Items) → IsAmong items → any_item show product items ≡ true
  unfolding any_item
  IsAmong-any nil h = absurd h
  IsAmong-any (cons v items) (inl here) = rw (IsItem-names v here) refl
  IsAmong-any (cons v items) (inr there) = ground (arith, IsAmong-any items there)

  abbrev is_ok : Option Items → Bool
  is_ok none = false
  is_ok (some items) = any_item show product items

  listed-IsListed : (o : Option Items) → is_ok o ≡ true → IsListed o
  listed-IsListed none h = cc
  listed-IsListed (some items) h = any-IsAmong items h

  IsListed-listed : (o : Option Items) → IsListed o → is_ok o ≡ true
  IsListed-listed none h = absurd h
  IsListed-listed (some items) h = IsAmong-any items h

  module _ (x : Entry) where
    -- The condition without its errors: where it cannot be evaluated, it does not hold.
    abbrev holds : Bool
    holds =
        is_among show warehouse kind x
        && (str_eq product ""
            || is_text (text_of show (get "productId" x.payload)) product
            || is_ok (items_in x.payload))

    selected-holds : is_selected show product warehouse kind x ≡ holds
    unfolding has_product
    selected-holds =
        go (is_among show warehouse kind x) (str_eq product "")
          (is_text (text_of show (get "productId" x.payload)) product) (items_in x.payload)
      where
        go :
            (among all own : Bool) (o : Option Items)
            → is_ok_true (
                if among
                then (if all || own then ok true else of_items show product o)
                else ok false)
              ≡ (among && (all || own || is_ok o))
        go false all own o = refl
        go true true own o = refl
        go true false true o = refl
        go true false false none = refl
        go true false false (some items) = refl

    asked_text :
        (wanted : String) (o : Option String)
        → (str_eq wanted "" || is_text o wanted) ≡ true
        → (wanted ≡ "") ⊎ (o ≡ some wanted)
    asked_text wanted o h = elim (Bool-cases (str_eq wanted "")) [
      | inl all ↦ inl ((eq_iff wanted "").0 all)
      | inr one ↦ inr (is_text-some o wanted (rw one at h))
    ]

    text_asked :
        (wanted : String) (o : Option String)
        → (wanted ≡ "") ⊎ (o ≡ some wanted)
        → (str_eq wanted "" || is_text o wanted) ≡ true
    text_asked wanted o (inl all) = rw ((eq_iff wanted "").1 all) refl
    text_asked wanted o (inr one) = ground (arith, some-is_text o wanted one)

    pub selected-IsAsked : is_selected show product warehouse kind x ≡ true → IsAsked x
    selected-IsAsked h =
        let e : holds ≡ true = sym selected-holds ∙ h in
        record {
          of_kind = kinds (str_eq kind "") refl (ground (arith, e));
          of_warehouse =
              asked_text warehouse (text_of show (get "warehouseId" x.payload)) (ground (arith, e));
          of_product = products (ground (arith, e));
        }
      where
        kinds :
            (b : Bool)
            → str_eq kind "" ≡ b
            → (b || str_eq (name_of x.event_type) kind) ≡ true
            → (kind ≡ "") ⊎ (name_of x.event_type ≡ kind)
        kinds true q h = inl ((eq_iff kind "").0 q)
        kinds false q h = inr ((eq_iff (name_of x.event_type) kind).0 h)

        products :
            (str_eq product ""
                || is_text (text_of show (get "productId" x.payload)) product
                || is_ok (items_in x.payload))
              ≡ true
            → (product ≡ "")
              ⊎ ((text_of show (get "productId" x.payload) ≡ some product)
                  ⊎ IsListed (items_in x.payload))
        products h = elim (Bool-cases (str_eq product "")) [
          | inl all ↦ inl ((eq_iff product "").0 all)
          | inr one ↦
              elim (Bool-cases (is_text (text_of show (get "productId" x.payload)) product)) [
                | inl own ↦
                    inr (inl (is_text-some (text_of show (get "productId" x.payload)) product own))
                | inr item ↦
                    inr (inr (listed-IsListed (items_in x.payload) (ground (arith, h, one, item))))
              ]
        ]

    pub unselected : is_selected show product warehouse kind x ≡ false → IsAsked x → ⊥
    unselected h a = ground (
      arith,
      sym selected-holds ∙ h,
      kinds a.of_kind,
      text_asked warehouse (text_of show (get "warehouseId" x.payload)) a.of_warehouse,
      products a.of_product,
    )
      where
        kinds :
            (kind ≡ "") ⊎ (name_of x.event_type ≡ kind)
            → (str_eq kind "" || str_eq (name_of x.event_type) kind) ≡ true
        kinds (inl all) = rw ((eq_iff kind "").1 all) refl
        kinds (inr one) = ground (arith, (eq_iff (name_of x.event_type) kind).1 one)

        products :
            (product ≡ "")
              ⊎ ((text_of show (get "productId" x.payload) ≡ some product)
                  ⊎ IsListed (items_in x.payload))
            → (str_eq product ""
                || is_text (text_of show (get "productId" x.payload)) product
                || is_ok (items_in x.payload))
              ≡ true
        products (inl all) = rw ((eq_iff product "").1 all) refl
        products (inr (inl own)) =
            ground (arith, some-is_text (text_of show (get "productId" x.payload)) product own)
        products (inr (inr item)) = ground (arith, IsListed-listed (items_in x.payload) item)
