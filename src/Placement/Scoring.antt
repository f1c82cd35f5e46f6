-- ===== src/Placement/Scoring.antt =====
-- services/placement-service/internal/domain/scoring.go, and the loop of `assign` in
-- services/placement-service/internal/application/service.go that picks a candidate. The operations
-- on float64 are a parameter.
use Prim.Native.String.{String, compare}
use Prim.Native.Nat.{Ordering}
use logicore_wms.Base.{
  ℕ, ◌*◌, Bool, true, false, not, Option, none, some, List, [], ◌∷◌, ◌&&◌, ◌||◌, if◌then◌else◌,
  str_eq,
}
use logicore_wms.Base.Int.{ℤ, pos, neg}

-- float64: `of` gives a number that is counted in units of 10^-9, and `units` goes back.
pub record Floats : Type 1 where
  pub F : Type 0
  pub of : ℤ → F
  pub units : F → ℤ
  pub add : F → F → F
  pub sub : F → F → F
  pub mul : F → F → F
  pub div : F → F → F
  pub greater : F → F → F
  pub lesser : F → F → F
  pub lt : F → F → Bool
  pub eq : F → F → Bool

module _ (fl : Floats) where
  abbrev pub whole : ℕ → fl.F
  whole n = fl.of (pos (n * 1000000000))

  -- `x <= y`
  abbrev le : fl.F → fl.F → Bool
  le x y = fl.lt x y || fl.eq x y

  pub record Candidate : Type 0 where
    pub id : String
    pub warehouse_id : String
    pub max_weight : fl.F
    pub max_volume : fl.F
    pub current_weight : fl.F
    pub current_volume : fl.F
    pub distance : fl.F
    pub storage_type : String
    pub zone_type : String
    pub status : String

  -- The first guard of `Score`.
  unfoldable pub is_unsuitable : Candidate → String → String → fl.F → fl.F → Bool
  is_unsuitable c warehouse storage_type weight volume =
      not (str_eq c.warehouse_id warehouse)
      || not (str_eq c.zone_type "STORAGE")
      || not (str_eq c.storage_type storage_type)
      || str_eq c.status "BLOCKED"
      || str_eq c.status "MAINTENANCE"
      || le c.max_weight (whole 0)
      || le c.max_volume (whole 0)
      || le weight (whole 0)
      || le volume (whole 0)

  -- The second: `1e-9` is the unit.
  unfoldable pub is_full : Candidate → fl.F → fl.F → Bool
  is_full c weight volume =
      fl.lt (fl.add c.max_weight (fl.of (pos 1))) (fl.add c.current_weight weight)
      || fl.lt (fl.add c.max_volume (fl.of (pos 1))) (fl.add c.current_volume volume)

  abbrev rank : Candidate → fl.F → fl.F → fl.F
  rank c weight volume =
      let occupancy =
        fl.greater (fl.div c.current_weight c.max_weight) (fl.div c.current_volume c.max_volume) in
      let remaining =
        fl.lesser (fl.div (fl.sub (fl.sub c.max_weight c.current_weight) weight) c.max_weight)
          (fl.div (fl.sub (fl.sub c.max_volume c.current_volume) volume) c.max_volume) in
      fl.sub
        (fl.add (fl.add (whole 40) (fl.mul (whole 30) remaining))
          (fl.div (whole 30) (fl.add (whole 1) (fl.div c.distance (whole 10)))))
        (fl.mul (whole 20) occupancy)

  -- `Score`; `none` stands for `false`.
  unfoldable pub score : Candidate → String → String → fl.F → fl.F → Option fl.F
  score c warehouse storage_type weight volume =
      if is_unsuitable c warehouse storage_type weight volume
      then none
      else if is_full c weight volume
      then none
      else some (rank c weight volume)

  -- `candidate.ID < chosen.ID`
  abbrev is_less : String → String → Bool
  is_less s t = elim (compare s t) [
    | Ordering.lt ↦ true
    | Ordering.eq ↦ false
    | Ordering.gt ↦ false
  ]

  abbrev is_smaller : String → Option Candidate → Bool
  is_smaller id none = false
  is_smaller id (some chosen) = is_less id chosen.id

  -- The test of the loop, for an eligible candidate with score `s`.
  abbrev pub is_better : Candidate → fl.F → fl.F → Option Candidate → Bool
  is_better c s best chosen = fl.lt best s || (fl.eq s best && is_smaller c.id chosen)

  abbrev pub pick : Candidate → Option fl.F → fl.F × Option Candidate → fl.F × Option Candidate
  pick c none (best, chosen) = (best, chosen)
  pick c (some s) (best, chosen) = if is_better c s best chosen then (s, some c) else (best, chosen)

  -- The loop over the locations, with `best` and `chosen`.
  unfoldable pub choose :
      (Candidate → Option fl.F) → List Candidate → fl.F × Option Candidate → fl.F × Option Candidate
  choose scores [] found = found
  choose scores (c ∷ l) found = choose scores l (pick c (scores c) found)

  -- `best := -1e9`
  abbrev pub nothing_found : fl.F × Option Candidate
  nothing_found = (fl.of (neg (1000000000 * 1000000000)), none)
