-- ===== src/Audit/Plans.antt =====
-- The plans of the query of `list`.
use logicore_wms.Base.{
  ℕ, zero, suc, ◌<◌, ◌≤◌, String, Bool, true, false, List, [], ◌∷◌, ◌≡◌, ◌⊎◌, refl, sym, ap, ◌∙◌,
  arith, All, keep, take, if◌then◌else◌,
}
use logicore_wms.Base.Sort.{sort_by, All-sort, keep-sort}
use logicore_wms.Platform.Types.{Result, ok, err, after}
use logicore_wms.Platform.Json.{Json}
use logicore_wms.Audit.{Entry}
use logicore_wms.Audit.Listing.{
  Plan, sorting, following, selects, matching, scan, earlier, searched,
}

-- The first entry is of an earlier time, or of the same and has no greater identifier.
abbrev pub IsEarlier : Entry → Entry → Type 0
IsEarlier x y = (x.timestamp < y.timestamp) ⊎ ((x.timestamp ≡ y.timestamp) × (x.id ≤ y.id))

pub earlier-IsEarlier : (x y : Entry) → earlier x y ≡ true → IsEarlier x y
earlier-IsEarlier x y h = ground arith

pub earlier-connected : (x y : Entry) → earlier x y ≡ false → earlier y x ≡ true
earlier-connected x y h = ground arith

pub earlier_trans : (x y z : Entry) → earlier x y ≡ true → earlier y z ≡ true → earlier x z ≡ true
earlier_trans x y z h k = ground arith

abbrev pub is_ok_true : Result Bool → Bool
is_ok_true (ok b) = b
is_ok_true (err e) = false

module _ (show : Json → String) (product warehouse kind : String) where
  abbrev pub is_selected : Entry → Bool
  is_selected x = is_ok_true (selects show product warehouse kind x)

  -- The condition can be evaluated for the entry.
  abbrev IsDecided : Entry → Type 0
  IsDecided x = selects show product warehouse kind x ≡ ok (is_selected x)

  matching-cons :
      (x : Entry) (l found : List Entry) (b : Result Bool) (m : Result (List Entry))
      → selects show product warehouse kind x ≡ b
      → after b (λ b. after m λ rest. ok (if b then x ∷ rest else rest)) ≡ ok found
      → IsDecided x
        × ((rest : List Entry) × (m ≡ ok rest)
            × (found ≡ (if is_selected x then x ∷ rest else rest)))
  matching-cons x l found (err e) m q h = absurd (cc)
  matching-cons x l found (ok b) (err e) q h = absurd (cc)
  matching-cons x l found (ok b) (ok rest) q h =
      (rw q refl, (rest, refl, ground (arith, h, ap is_ok_true q)))

  pub matching-keep :
      (l found : List Entry)
      → matching show product warehouse kind l ≡ ok found
      → All IsDecided l × (found ≡ keep is_selected l)
  unfolding matching
  matching-keep [] found h = (tt, ground (arith, h))
  matching-keep (x ∷ l) found h =
      let (decided, (rest, m, e)) =
        matching-cons x l found (selects show product warehouse kind x)
          (matching show product warehouse kind l) refl h in
      let (all, q) = matching-keep l rest m in
      ((decided, all), e ∙ ap (λ r. if is_selected x then x ∷ r else r) q)

  scan-keep :
      (n : ℕ) (l : List Entry)
      → All IsDecided l
      → scan show product warehouse kind n l ≡ ok (take n (keep is_selected l))
  unfolding scan
  scan-keep zero l h = refl
  scan-keep (suc n) [] h = refl
  scan-keep (suc n) (x ∷ l) (decided, h) =
      go (is_selected x) decided (scan-keep n l h) (scan-keep (suc n) l h)
    where
      go :
          (b : Bool)
          → selects show product warehouse kind x ≡ ok b
          → scan show product warehouse kind n l ≡ ok (take n (keep is_selected l))
          → scan show product warehouse kind (suc n) l ≡ ok (take (suc n) (keep is_selected l))
          → after (selects show product warehouse kind x) (λ b.
            if b
            then after (scan show product warehouse kind n l) (λ found. ok (x ∷ found))
            else scan show product warehouse kind (suc n) l)
            ≡ ok (take (suc n) (if b then x ∷ keep is_selected l else keep is_selected l))
      go true e r more = rw (e, r) refl
      go false e r more = rw (e, more) refl

  -- Whichever plan is followed, the first `n` of the rows for which the condition holds are found.
  pub searched-take :
      (plan : Plan) (n : ℕ) (l found : List Entry)
      → matching show product warehouse kind l ≡ ok found
      → searched show plan product warehouse kind n l ≡ ok (take n (sort_by earlier found))
  unfolding searched
  searched-take sorting n l found h = rw h refl
  searched-take following n l found h =
      let (all, e) = matching-keep l found h in
      scan-keep n (sort_by earlier l) (All-sort earlier IsDecided l all)
      ∙ ap (λ m. ok (take n m))
          (keep-sort earlier earlier-connected earlier_trans is_selected l
            ∙ ap (sort_by earlier) (sym e))
