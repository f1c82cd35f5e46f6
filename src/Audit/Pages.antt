-- ===== src/Audit/Pages.antt =====
-- The pages of the list of events, one after another.
use native.Mathlib.Numerals.{unary_clauses}
use logicore_wms.Base.{
  All, All-imp, All-keep, keep, sum_by-keep, subst, ℕ, zero, suc, ◌+◌, ◌*◌, ◌≤◌, String, false,
  Option, none, some, List, [], ◌∷◌, ◌++◌, ◌≡◌, refl, sym, ap, ◌∙◌, Ordered, sum_by, arith, take,
  drop, length, map, str_eq, eq_iff, take_all, map-append, length-sum, Bool-cases, inl, inr,
}
use logicore_wms.Base.Int.{ℤ, pos}
use logicore_wms.Base.Sort.{sort_by, All-sort, sum_by-sort, sort-IsSorted, IsSorted-Ordered}
use logicore_wms.Platform.Types.{Context, Result, ok, after}
use logicore_wms.Platform.Json.{Json, Payload}
use logicore_wms.Platform.Query.{Driver, IsSound, query-view, check_optional}
use logicore_wms.Audit.{Entry, page}
use logicore_wms.Audit.Listing.{Plan, matching, earlier, list}
use logicore_wms.Audit.Asked.{IsAsked, selected-IsAsked, unselected}
use logicore_wms.Audit.Plans.{
  is_selected, matching-keep, IsEarlier, earlier-IsEarlier, earlier-connected, earlier_trans,
  searched-take,
}

-- Decimal numerals: `show` writes them, `strconv.Atoi` reads them back, and refuses the empty text.
pub record Numerals : Type 0 where
  pub atoi : String → Option ℤ
  pub show : ℕ → String
  pub reads : (n : ℕ) → atoi (show n) ≡ some (pos n)
  pub wants : atoi "" ≡ none

take-add : {A : Type 0} (n m : ℕ) (l : List A) → take n l ++ take m (drop n l) ≡ take (n + m) l
take-add zero m l = let e : m ≡ 0 + m = omega arith in ap (λ i. take i l) e
take-add (suc n) zero [] = simp unary_clauses refl
take-add (suc n) (suc m) [] = simp unary_clauses refl
take-add (suc n) m (x ∷ l) =
    let e : suc (n + m) ≡ suc n + m = omega arith in
    ap (◌∷◌ x) (take-add n m l) ∙ ap (λ i. take i (x ∷ l)) e

drop-add : {A : Type 0} (n m : ℕ) (l : List A) → drop m (drop n l) ≡ drop (n + m) l
drop-add zero m l = let e : m ≡ 0 + m = omega arith in ap (λ i. drop i l) e
drop-add (suc n) zero [] = simp unary_clauses refl
drop-add (suc n) (suc m) [] = simp unary_clauses refl
drop-add (suc n) m (x ∷ l) =
    let e : suc (n + m) ≡ suc n + m = omega arith in drop-add n m l ∙ ap (λ i. drop i (x ∷ l)) e

drop-take : {A : Type 0} (m n : ℕ) (l : List A) → drop m (take (m + n) l) ≡ take n (drop m l)
drop-take zero n l = let e : 0 + n ≡ n = omega arith in ap (λ i. take i l) e
drop-take (suc m) zero [] = simp unary_clauses refl
drop-take (suc m) (suc n) [] = simp unary_clauses refl
drop-take (suc m) n (x ∷ l) =
    let e : suc m + n ≡ suc (m + n) = omega arith in
    ap (λ i. drop (suc m) (take i (x ∷ l))) e ∙ drop-take m n l

module _ (d : Driver Entry Payload) (sound : IsSound d) (c : Context) (numerals : Numerals)
    (show : Json → String) (plan : Plan) (product warehouse kind : String) (n : ℕ)
    (l : List Entry) where
  -- `k` pages of `n` entries, from entry `m` on.
  abbrev pub read_pages : ℕ → ℕ → Result (List Payload)
  read_pages zero m = ok []
  read_pages (suc k) m =
      after
        (list show plan c numerals.atoi d product warehouse kind (numerals.show n) (numerals.show m)
          l)
        λ rows. after (read_pages k (m + n)) λ rest. ok (rows ++ rest)

  shown : (i : ℕ) → str_eq (numerals.show i) "" ≡ false
  shown i = elim (Bool-cases (str_eq (numerals.show i) "")) [
    | inl none_left ↦ absurd (
        clash
          (sym (ap numerals.atoi ((eq_iff (numerals.show i) "").0 none_left)) ∙ numerals.reads i))
    | inr h ↦ h
  ]
    where
      clash : numerals.atoi "" ≡ some (pos i) → ⊥
      clash e = ground (arith, e, numerals.wants)

  page_let_through :
      (m : ℕ)
      → 1 ≤ n
      → n ≤ 500
      → check_optional c product ≡ ok tt
      → check_optional c warehouse ≡ ok tt
      → page c numerals.atoi product warehouse (numerals.show n) (numerals.show m)
        ≡ ok (pos n, pos m)
  unfolding page
  page_let_through m low high ok_product ok_warehouse = ground (
    arith,
    ok_product,
    ok_warehouse,
    shown n,
    shown m,
    numerals.reads n,
    numerals.reads m,
    low,
    high,
  )

  module _ (found : List Entry) (finds : matching show product warehouse kind l ≡ ok found)
      (low : 1 ≤ n) (high : n ≤ 500) (ok_product : check_optional c product ≡ ok tt)
      (ok_warehouse : check_optional c warehouse ≡ ok tt) where
    page-view :
        (m : ℕ)
        → list show plan c numerals.atoi d product warehouse kind
            (numerals.show n)
            (numerals.show m)
            l
          ≡ ok (map d.view (take n (drop m (sort_by earlier found))))
    unfolding list
    page-view m =
        rw
          (
            page_let_through m low high ok_product ok_warehouse,
            searched-take show product warehouse kind plan (m + n) l found finds,
            drop-take m n (sort_by earlier found),
            query-view d sound (take n (drop m (sort_by earlier found))),
          )
          refl

    pages-view :
        (k m : ℕ) → read_pages k m ≡ ok (map d.view (take (k * n) (drop m (sort_by earlier found))))
    pages-view zero m =
        let e : 0 ≡ 0 * n = omega arith in
        ap (λ i. ok (map d.view (take i (drop m (sort_by earlier found))))) e
    pages-view (suc k) m =
        let rest = drop m (sort_by earlier found) in
        let e : n + k * n ≡ suc k * n = omega arith in
        rw (page-view m, pages-view k (m + n))
          (ap ok (
            ap (λ l. map d.view (take n rest) ++ map d.view (take (k * n) l))
              (sym (drop-add m n (sort_by earlier found)))
            ∙ sym (map-append d.view (take n rest) (take (k * n) (drop n rest)))
            ∙ ap (map d.view) (take-add n (k * n) rest ∙ ap (λ i. take i rest) e)))

    -- Reading the list of events page after page, with a limit of 1 to 500 and with enough pages, shows
    -- events that are asked for: of the type, of the warehouse and, in a field of their own or in one of
    -- their items, of the product, where the request has them. They are ordered by the times and, at the same
    -- time, by the identifiers of the entries. None is left out and none comes twice: whatever is counted of
    -- the events that are asked for alone comes to the same over what is shown and over the record. It is
    -- assumed that the product and the warehouse are left out or well formed, that the conditions of the
    -- query can be evaluated for all entries, that the database answers, by whichever plan, that nothing is
    -- recorded meanwhile, and that numbers are read as they are written.
    pub pages_all :
        (k : ℕ) (g : Entry → ℕ)
        → length found ≤ k * n
        → ((x : Entry) → (IsAsked show product warehouse kind x → ⊥) → g x ≡ 0)
        → (rows : List Entry) × (read_pages k 0 ≡ ok (map d.view rows))
          × All (IsAsked show product warehouse kind) rows
          × Ordered IsEarlier rows
          × (sum_by g rows ≡ sum_by g l)
    pages_all k g enough counts =
        let test = is_selected show product warehouse kind in
        let same = (matching-keep show product warehouse kind l found finds).1 in
        (
          sort_by earlier found,
          pages-view k 0
              ∙ ap (λ l. ok (map d.view l))
                  (take_all (k * n) (sort_by earlier found) (
                    omega (
                      arith,
                      enough,
                      length-sum found,
                      length-sum (sort_by earlier found),
                      sum_by-sort earlier (λ _. 1) found,
                    ))),
          All-sort earlier (IsAsked show product warehouse kind) found (
              subst (All (IsAsked show product warehouse kind)) (sym same) (
                All-imp (selected-IsAsked show product warehouse kind) (keep test l)
                  (All-keep test l))),
          IsSorted-Ordered earlier IsEarlier earlier-IsEarlier (sort_by earlier found)
              (sort-IsSorted earlier earlier-connected earlier_trans found),
          sum_by-sort earlier g found
              ∙ ap (sum_by g) same
              ∙ sum_by-keep test g l (λ x h. counts x (unselected show product warehouse kind x h)),
        )
