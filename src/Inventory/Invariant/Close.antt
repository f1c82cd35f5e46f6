-- ===== src/Inventory/Invariant/Close.antt =====
-- How a reservation ends: what was reserved for it is taken back lot by lot, and then its row stops
-- to be confirmed. Between the two the invariant holds but for the reserved units.
use logicore_wms.Base.{
  ℕ, Bool, true, false, some, List, [], ◌∷◌, ◌+◌, ◌≤◌, ◌≡◌, refl, sym, ap, ◌∙◌, subst, arith,
  sum_by, is_some, keep, ◌==◌, if◌then◌else◌, All,
}
use logicore_wms.Base.Rows.{Updated, find_row}
use logicore_wms.Inventory.Tables.{
  Tables, Reservation, Allocation, confirmed, reservation_key, find_reservation, allocations_of,
}
use logicore_wms.Inventory.Capacity.Ledger.{weight_at, volume_at}
use logicore_wms.Inventory.Fulfil.{is_status}
use logicore_wms.Base.Sort.{sort_by, sum_by-sort}
use logicore_wms.Inventory.Invariant.{
  Inv, IsWithin, IsBalanced, reserved_at, claims, is_live, weight_unit, volume_unit,
}
use logicore_wms.Inventory.Invariant.Claims.{share, claims-end}

-- The invariant but for the reserved units.
pub record Sound (t : Tables) : Type 0 where
  pub weights : IsBalanced (λ l. weight_at l t) weight_unit t.stocks
  pub volumes : IsBalanced (λ l. volume_at l t) volume_unit t.stocks
  pub known : All (λ a. is_some (find_reservation a.reservation_id t) ≡ true) t.allocations
  pub within : All IsWithin t.stocks

pub Sound-Inv : {t : Tables} → Inv t → Sound t
Sound-Inv v = record {
  weights = v.weights;
  volumes = v.volumes;
  known = v.known;
  within = v.within;
}

-- What a list of allocations holds of lot `k`.
abbrev pub units_of : ℕ → Allocation → ℕ
units_of k a = if a.stock_id == k then a.quantity else 0

abbrev pub units : ℕ → List Allocation → ℕ
units k = sum_by (units_of k)

-- The allocations of a list have been taken back, or out, between two states.
pub record Lowered (l : List Allocation) (t t' : Tables) : Type 0 where
  pub sound : Sound t'
  pub reservations : t'.reservations ≡ t.reservations
  pub allocations : t'.allocations ≡ t.allocations
  pub lowered : (j : ℕ) → reserved_at j t'.stocks + units j l ≡ reserved_at j t.stocks

pub Lowered-none : {t t' : Tables} → Sound t → t' ≡ t → Lowered [] t t'
Lowered-none {t} v e = record {
  sound = subst Sound (sym e) v;
  reservations = ap (λ (t : Tables). t.reservations) e;
  allocations = ap (λ (t : Tables). t.allocations) e;
  lowered = λ j. omega (arith, ap (λ (t : Tables). reserved_at j t.stocks) e);
}

pub Lowered-cons :
    {a : Allocation} {l : List Allocation} {t t1 t2 : Tables}
    → Lowered (a ∷ []) t t1
    → Lowered l t1 t2
    → Lowered (a ∷ l) t t2
Lowered-cons d d2 = record {
  sound = d2.sound;
  reservations = d2.reservations ∙ d.reservations;
  allocations = d2.allocations ∙ d.allocations;
  lowered = λ j. omega (arith, d.lowered j, d2.lowered j);
}

-- The order of the allocations does not matter.
pub units-sort :
    (k : ℕ) (le : Allocation → Allocation → Bool) (l : List Allocation)
    → units k (sort_by le l) ≡ units k l
units-sort k le l = sum_by-sort le (units_of k) l

-- What the allocations of a reservation hold is its share.
pub units-allocations_of :
    (k r : ℕ) (t : Tables) → units k (allocations_of r t) ≡ share r k t.allocations
unfolding allocations_of
units-allocations_of k r t = go t.allocations
  where
    go : (l : List Allocation) → units k (keep (λ a. a.reservation_id == r) l) ≡ share r k l
    go [] = refl
    go (a ∷ l) = ground (arith, go l)

-- The share of a confirmed reservation is claimed.
share-le :
    (k r : ℕ) (rows : List Reservation) (l : List Allocation)
    → is_live r rows ≡ true
    → share r k l ≤ claims k rows l
share-le k r rows [] live = omega arith
share-le k r rows (a ∷ l) live = ground (arith, share-le k r rows l live)

-- It is reserved, lot by lot.
pub units-reserved :
    (r : ℕ) (l : List Allocation) {t : Tables} {x : Reservation}
    → Inv t
    → find_reservation r t ≡ some x
    → x.status ≡ confirmed
    → ((j : ℕ) → units j l ≡ share r j t.allocations)
    → (j : ℕ) → units j l ≤ reserved_at j t.stocks
units-reserved r l {t} v found live all j = omega (
  arith,
  all j,
  v.backed j,
  share-le j r t.reservations t.allocations (ground (arith, found, live)),
)

known-Updated :
    {r : ℕ} {rows rows' : List Reservation} {x y : Reservation} (l : List Allocation)
    → Updated reservation_key r rows rows' x y
    → All (λ a. is_some (find_row reservation_key a.reservation_id rows) ≡ true) l
    → All (λ a. is_some (find_row reservation_key a.reservation_id rows') ≡ true) l
known-Updated [] u h = tt
known-Updated (a ∷ l) u (e, h) = (ground (arith, u.finds a.reservation_id), known-Updated l u h)

-- The end of a confirmed reservation whose allocations, `l`, have been taken back.
pub Inv-close :
    {r : ℕ} {l : List Allocation} {t t1 t2 : Tables} {x y : Reservation}
    → Inv t
    → Lowered l t t1
    → ((j : ℕ) → units j l ≡ share r j t.allocations)
    → Updated reservation_key r t1.reservations t2.reservations x y
    → t2 ≡ record t1 { reservations = t2.reservations }
    → is_status x.status confirmed ≡ true
    → is_status y.status confirmed ≡ false
    → Inv t2
Inv-close {r} {l} {t} {t1} {t2} v d all u stay ex ey = subst Inv (sym stay) (record {
  backed = λ j. omega (
    arith,
    d.lowered j,
    all j,
    v.backed j,
    ap (λ rows. claims j rows t.allocations) d.reservations,
    ap (λ l. claims j t2.reservations l) d.allocations,
    claims-end j r t1.reservations t2.reservations t.allocations u ex ey,
  );
  weights = d.sound.weights;
  volumes = d.sound.volumes;
  known = known-Updated t1.allocations u d.sound.known;
  within = d.sound.within;
})
