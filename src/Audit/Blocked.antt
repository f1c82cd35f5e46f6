-- ===== src/Audit/Blocked.antt =====
-- The list of events when an event cannot be searched.
use logicore_wms.Base.{
  ◌+◌, true, String, Bool, false, Option, none, List, [], ◌∷◌, ◌++◌, ◌≡◌, ◌≢◌, refl, arith, take,
  drop, str_eq, if◌then◌else◌, ◌||◌,
}
use logicore_wms.Base.Int.{ℤ, pos_part}
use logicore_wms.Base.Sort.{sort_by}
use logicore_wms.Platform.Types.{Context, internal, fault, Result, ok, err, after}
use logicore_wms.Platform.Json.{Json, Payload, get}
use logicore_wms.Platform.Query.{Driver, query}
use logicore_wms.Audit.{Entry, page}
use logicore_wms.Audit.Listing.{
  wrapped, text_of, is_text, items_in, has_product, is_among, matching, earlier, sorting, searched,
  list,
}

-- An event whose items are no array, in a log.
module _ (show : Json → String) (product warehouse kind : String) (x : Entry)
    (bad : items_in x.payload ≡ none)
    (asked : (str_eq product "" || is_text (text_of show (get "productId" x.payload)) product)
      ≡ false)
    (among : is_among show warehouse kind x ≡ true) where
  matching-blocked :
      (front back : List Entry) (r : List Entry)
      → matching show product warehouse kind (front ++ (x ∷ back)) ≢ ok r
  unfolding matching has_product
  matching-blocked [] back r e = absurd (ground (arith, bad, asked, among, e))
  matching-blocked (y ∷ front) back r e =
      go (if is_among show warehouse kind y then has_product show product y.payload else ok false)
        (matching show product warehouse kind (front ++ (x ∷ back))) (matching-blocked front back) e
    where
      go :
          (b : Result Bool) (m : Result (List Entry))
          → ((rest : List Entry) → m ≢ ok rest)
          → after b (λ b. after m λ rest. ok (if b then y ∷ rest else rest)) ≡ ok r
          → ⊥
      go (err f) m q e = cc
      go (ok b) (err f) q e = cc
      go (ok b) (ok rest) q e = q rest refl

  -- Once an event is recorded whose field `items` is no array, which is of the warehouse and the type that
  -- are asked for, and which does not have the product in a field of its own, no list of events by that
  -- product succeeds for which PostgreSQL evaluates the condition for all rows and sorts them, whatever
  -- else is recorded and whichever page is asked for.
  pub list-blocked :
      (c : Context) (atoi : String → Option ℤ) (d : Driver Entry Payload) (limit offset : String)
      (front back : List Entry) (rows : List Payload)
      → list show sorting c atoi d product warehouse kind limit offset (front ++ (x ∷ back))
        ≢ ok rows
  unfolding list searched
  list-blocked c atoi d limit offset front back rows e =
      go (page c atoi product warehouse limit offset)
        (matching show product warehouse kind (front ++ (x ∷ back))) (matching-blocked front back) e
    where
      go :
          (p : Result (ℤ × ℤ)) (m : Result (List Entry))
          → ((found : List Entry) → m ≢ ok found)
          → after p (λ p. wrapped (
              after
                (after m λ found. ok (take (pos_part p.1 + pos_part p.0) (sort_by earlier found)))
                λ found. query d.decode (d.fetch (drop (pos_part p.1) found))))
            ≡ ok rows
          → ⊥
      go (err f) m q e = cc
      go (ok p) (err (internal f)) q e = cc
      go (ok p) (err (fault f)) q e = cc
      go (ok p) (ok found) q e = q found refl
