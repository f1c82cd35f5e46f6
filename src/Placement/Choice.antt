-- ===== src/Placement/Choice.antt =====
-- The choice among the locations.
use logicore_wms.Base.{
  if◌then◌else◌, Bool, true, false, Option, none, some, List, [], ◌∷◌, ◌≡◌, ◌⊎◌, inl, inr, refl,
  sym, subst, ap, ◌∙◌, All, Bool-cases, arith,
}
use mathlib.Core.List.{Memᴰ}
use logicore_wms.Placement.Scoring.{Floats, Candidate, is_better, pick, choose, nothing_found}

-- What the loop needs to know of the comparisons of float64, all of it true of NaN too.
pub record Comparable (fl : Floats) : Type 0 where
  pub irreflexive : (x : fl.F) → fl.lt x x ≡ false
  pub transitive : (x y z : fl.F) → fl.lt x y ≡ true → fl.lt y z ≡ true → fl.lt x z ≡ true
  pub congruent : (x y z : fl.F) → fl.eq x y ≡ true → fl.lt x z ≡ fl.lt y z

module _ (fl : Floats) (laws : Comparable fl) (scores : Candidate fl → Option fl.F) where
  -- No score beats `best`.
  abbrev pub Unbeaten : fl.F → Candidate fl → Type 0
  Unbeaten best c = (s : fl.F) → scores c ≡ some s → fl.lt best s ≡ false

  Unbeaten-raised :
      (best s : fl.F) (l : List (Candidate fl))
      → (fl.lt best s ≡ true) ⊎ (fl.eq s best ≡ true)
      → All (Unbeaten best) l
      → All (Unbeaten s) l
  Unbeaten-raised best s [] h a = tt
  Unbeaten-raised best s (c ∷ l) h (u, a) = (one h, Unbeaten-raised best s l h a)
    where
      one : (fl.lt best s ≡ true) ⊎ (fl.eq s best ≡ true) → Unbeaten s c
      one (inl lower) z e = elim (Bool-cases (fl.lt s z)) [
        | inl higher ↦ absurd (clash (laws.transitive best s z lower higher) (u z e))
        | inr below ↦ below
      ]
        where
          clash : {b : Bool} → b ≡ true → b ≡ false → ⊥
          clash p q = cc
      one (inr tie) z e = laws.congruent s best z tie ∙ u z e

  pick-Unbeaten :
      (c : Candidate fl) (o : Option fl.F) (found : fl.F × Option (Candidate fl))
      (seen : List (Candidate fl))
      → scores c ≡ o
      → All (Unbeaten found.0) seen
      → All (Unbeaten (pick fl c o found).0) (c ∷ seen)
  pick-Unbeaten c none found seen e a = ((λ s q. absurd (clash e q)), a)
    where
      clash : {s : fl.F} {o : Option fl.F} → o ≡ none → o ≡ some s → ⊥
      clash p q = cc
  pick-Unbeaten c (some s) (best, chosen) seen e a = go (is_better fl c s best chosen) refl
    where
      mine : (z : fl.F) → scores c ≡ some z → z ≡ s
      mine z q = some_same (sym q ∙ e)
        where
          some_same : {x y : fl.F} → some x ≡ some y → x ≡ y
          some_same h = cc

      go :
          (b : Bool)
          → is_better fl c s best chosen ≡ b
          → All
              (Unbeaten
                (if◌then◌else◌ {A = fl.F × Option (Candidate fl)} b (s, some c) (best, chosen)).0)
              (c ∷ seen)
      go true h = (
        (λ z q. ap (fl.lt s) (mine z q) ∙ laws.irreflexive s),
        Unbeaten-raised best s seen (above h) a,
      )
        where
          above :
              is_better fl c s best chosen ≡ true → (fl.lt best s ≡ true) ⊎ (fl.eq s best ≡ true)
          above h = elim (Bool-cases (fl.lt best s)) [
            | inl higher ↦ inl higher
            | inr level ↦ inr (ground (arith, h, level))
          ]
      go false h = ((λ z q. ap (fl.lt best) (mine z q) ∙ ground (arith, h)), a)

  -- The loop over `rest` when those of `seen` have been seen.
  choose-Unbeaten :
      (seen rest : List (Candidate fl)) (found : fl.F × Option (Candidate fl))
      → All (Unbeaten found.0) seen
      → All (Unbeaten (choose fl scores rest found).0) seen
        × All (Unbeaten (choose fl scores rest found).0) rest
  unfolding choose
  choose-Unbeaten seen [] found a = (a, tt)
  choose-Unbeaten seen (c ∷ rest) found a =
      let ((u, a'), r) =
        choose-Unbeaten (c ∷ seen) rest (pick fl c (scores c) found)
          (pick-Unbeaten c (scores c) found seen refl a) in
      (a', (u, r))

  -- The candidate that is found, with its score, is the one from before or one of the list.
  abbrev Comes :
      List (Candidate fl) → fl.F × Option (Candidate fl) → fl.F × Option (Candidate fl) → Type 0
  Comes l found found' =
      (found' ≡ found)
      ⊎ ((c : Candidate fl) × (found'.1 ≡ some c) × Memᴰ c l × (scores c ≡ some found'.0))

  pick-Comes :
      (c : Candidate fl) (o : Option fl.F) (found : fl.F × Option (Candidate fl))
      → scores c ≡ o
      → Comes (c ∷ []) found (pick fl c o found)
  pick-Comes c none found e = inl refl
  pick-Comes c (some s) (best, chosen) e = go (is_better fl c s best chosen)
    where
      go :
          (b : Bool)
          → Comes
              (c ∷ [])
              (best, chosen)
              (if◌then◌else◌ {A = fl.F × Option (Candidate fl)} b (s, some c) (best, chosen))
      go true = inr (c, refl, Memᴰ.head refl, e)
      go false = inl refl

  choose-Comes :
      (l : List (Candidate fl)) (found : fl.F × Option (Candidate fl))
      → Comes l found (choose fl scores l found)
  unfolding choose
  choose-Comes [] found = inl refl
  choose-Comes (c ∷ l) found = elim (choose-Comes l (pick fl c (scores c) found)) [
    | inl same ↦ first (pick-Comes c (scores c) found refl) same
    | inr (d, e, m, q) ↦ inr (d, e, Memᴰ.tail m, q)
  ]
    where
      first :
          {found' : fl.F × Option (Candidate fl)}
          → Comes (c ∷ []) found (pick fl c (scores c) found)
          → found' ≡ pick fl c (scores c) found
          → Comes (c ∷ l) found found'
      first (inl same) e = inl (e ∙ same)
      first (inr (d, ed, m, q)) e =
          inr (d, ap (λ p. p.1) e ∙ ed, widen m, q ∙ ap some (sym (ap (λ p. p.0) e)))
        where
          widen : {d : Candidate fl} → Memᴰ d (c ∷ []) → Memᴰ d (c ∷ l)
          widen (Memᴰ.head e) = Memᴰ.head e
          widen (Memᴰ.tail m) = elim m [ ]

  -- What the loop promises of what it finds.
  abbrev pub Chosen : List (Candidate fl) → fl.F × Option (Candidate fl) → Type 0
  Chosen l (best, none) = All (Unbeaten (nothing_found fl).0) l
  Chosen l (best, some c) = Memᴰ c l × (scores c ≡ some best) × All (Unbeaten best) l

  -- The loop finds a candidate of the list that is eligible, with its score, which no eligible
  -- candidate of the list beats; if it finds none, then no eligible one scores above -10^9.
  pub choose-Chosen : (l : List (Candidate fl)) → Chosen l (choose fl scores l (nothing_found fl))
  choose-Chosen l =
      go (choose fl scores l (nothing_found fl)) (choose-Unbeaten [] l (nothing_found fl) tt).1
        (choose-Comes l (nothing_found fl))
    where
      go :
          (r : fl.F × Option (Candidate fl))
          → All (Unbeaten r.0) l
          → Comes l (nothing_found fl) r
          → Chosen l r
      go (best, none) a (inl e) = subst (λ b. All (Unbeaten b) l) (ap (λ p. p.0) e) a
      go (best, none) a (inr (c, e, m, q)) = absurd (cc)
      go (best, some d) a (inl e) = absurd (lost (ap (λ p. p.1) e))
        where
          lost : some d ≡ none → ⊥
          lost h = cc
      go (best, some d) a (inr (c, e, m, q)) =
          subst (λ x. Memᴰ x l × (scores x ≡ some best) × All (Unbeaten best) l) (sym (same e))
            (m, q, a)
        where
          same : {x y : Candidate fl} → some x ≡ some y → x ≡ y
          same h = cc
