-- ===== src/Inventory/Invariant/Release.antt =====
-- `release` keeps the invariant: a reservation that is cancelled or expires gives back what was
-- reserved for it.
use logicore_wms.Base.{
  ℕ, String, Bool, true, false, none, some, List, [], ◌∷◌, ◌≤◌, ◌≡◌, refl, sym, ap, ◌∙◌, subst,
  arith, if◌then◌else◌, Option-cases, inl, inr,
}
use logicore_wms.Base.Rows.{Updated, find_row, All-Updated, All-find_row, find_row-key, some_inj}
use logicore_wms.Platform.Types.{Context, ok}
use logicore_wms.Platform.Tx.{Store}
use logicore_wms.Platform.Tx.Steps.{
  or_throw-then, execute-then, bind-then, pure-tables, emit-tables,
}
use logicore_wms.Inventory.Stock.{Stock}
use logicore_wms.Inventory.Tables.{
  Tables, Status, confirmed, rejected, cancelled, expired, completed, Reservation, Allocation,
  stock_key, reservation_key, find_stock, find_reservation, update_stock, update_reservation,
  unreserve, allocations_of,
}
use logicore_wms.Inventory.Tables.Rows.{
  update_stock-then, update_stock-absent, update_reservation-then,
}
use logicore_wms.Inventory.Capacity.Ledger.{weight_at, volume_at}
use logicore_wms.Inventory.Fulfil.{
  is_status, unreserve_all, with_status, free, release_row, release,
}
use logicore_wms.Inventory.Invariant.{Inv, IsWithin, reserved_at, weight_unit, volume_unit}
use logicore_wms.Inventory.Invariant.Ledgers.{IsBalanced-idle}
use logicore_wms.Inventory.Invariant.Claims.{reserved_at-Updated}
use logicore_wms.Inventory.Invariant.Close.{
  Sound, Sound-Inv, Lowered, Lowered-none, Lowered-cons, units, units-allocations_of,
  units-reserved, Inv-close,
}

-- The units of one allocation are taken back.
Lowered-unreserve :
    {a : Allocation} {t t1 : Tables} {x y : Stock}
    → Sound t
    → unreserve a.quantity x ≡ some y
    → Updated stock_key a.stock_id t.stocks t1.stocks x y
    → t1 ≡ record t { stocks = t1.stocks }
    → Lowered (a ∷ []) t t1
Lowered-unreserve {a} {t} {t1} {x} {y} v ry u stay = subst (Lowered (a ∷ []) t) (sym stay) (record {
  sound = record {
    weights =
        IsBalanced-idle weight_unit (λ l. weight_at l t) (λ l. weight_at l t) u (ground (arith, ry))
          v.weights (λ j. ground (arith, ry)) (λ j. refl);
    volumes =
        IsBalanced-idle volume_unit (λ l. volume_at l t) (λ l. volume_at l t) u (ground (arith, ry))
          v.volumes (λ j. ground (arith, ry)) (λ j. refl);
    known = v.known;
    within =
        All-Updated stock_key IsWithin u
          (ground (arith, ry, All-find_row stock_key IsWithin a.stock_id t.stocks v.within u.found))
          v.within;
  };
  reservations = refl;
  allocations = refl;
  lowered = λ j. ground (arith, reserved_at-Updated u j, ry, u.found);
})

-- The lot of an allocation of nothing may be missing.
Lowered-absent :
    {a : Allocation} {t t1 : Tables}
    → Sound t
    → find_stock a.stock_id t ≡ none
    → ((j : ℕ) → units j (a ∷ []) ≤ reserved_at j t.stocks)
    → t ≡ t1
    → Lowered (a ∷ []) t t1
Lowered-absent {a} {t} v absent bound e = subst (Lowered (a ∷ []) t) e (record {
  sound = v;
  reservations = refl;
  allocations = refl;
  lowered = λ j. ground (arith, bound j, absent);
})

pub unreserve_all-Lowered :
    (l : List Allocation) (s : Store Tables) {s' : Store Tables}
    → Sound s.tables
    → ((j : ℕ) → units j l ≤ reserved_at j s.tables.stocks)
    → unreserve_all l s ≡ (ok tt, s')
    → Lowered l s.tables s'.tables
unfolding unreserve_all
unreserve_all-Lowered [] s v bound h =
    Lowered-none v (ap (λ (s : Store Tables). s.tables) (pure-tables s tt h))
unreserve_all-Lowered (a ∷ l) s {s'} v bound h =
    execute-then s (update_stock a.stock_id (unreserve a.quantity)) _ h λ t1 e1 h.
      let d = one t1 e1 in
      Lowered-cons d (
        unreserve_all-Lowered l (record s { tables = t1 }) d.sound
          (λ j. omega (arith, d.lowered j, bound j)) h)
  where
    one :
        (t1 : Tables)
        → update_stock a.stock_id (unreserve a.quantity) s.tables ≡ some t1
        → Lowered (a ∷ []) s.tables t1
    one t1 e1 = elim (Option-cases (find_stock a.stock_id s.tables)) [
      | inl absent ↦
          Lowered-absent v absent (λ j. omega (arith, bound j))
            (some_inj
              (sym (update_stock-absent a.stock_id (unreserve a.quantity) s.tables absent) ∙ e1))
      | inr (x, found) ↦
          update_stock-then a.stock_id (unreserve a.quantity) s.tables found (λ y q. ground arith)
            e1 λ y ry u stay. Lowered-unreserve v ry u stay
    ]

module _ (c : Context) where
  free-Inv :
      (id : String) (r : Reservation) (expiring : Bool) (s : Store Tables) {s' : Store Tables}
      → Inv s.tables
      → find_reservation r.id s.tables ≡ some r
      → r.status ≡ confirmed
      → free c id r expiring s ≡ (ok tt, s')
      → Inv s'.tables
  unfolding free
  free-Inv id r expiring s v found live h =
      bind-then s (unreserve_all (allocations_of r.id s.tables)) _ h λ _ s1 h1 h.
        let all = λ (j : ℕ). units-allocations_of j r.id s.tables in
        let d =
          unreserve_all-Lowered (allocations_of r.id s.tables) s (Sound-Inv v)
            (units-reserved r.id (allocations_of r.id s.tables) v found live all) h1 in
        let status = if expiring then expired else cancelled in
        execute-then s1 (update_reservation r.id (with_status status)) _ h λ t2 e2 h.
          update_reservation-then r.id (with_status status) s1.tables
            (subst (λ rows. find_row reservation_key r.id rows ≡ some r) (sym d.reservations) found)
            (λ y q. ground arith) e2
            λ y ry u stay.
              subst Inv (sym (emit-tables (record s1 { tables = t2 }) c _ _ h))
                (Inv-close v d all u stay (ground (arith, live)) (over expiring y ry))
    where
      over :
          (b : Bool) (y : Reservation)
          → with_status (if b then expired else cancelled) r ≡ some y
          → is_status y.status confirmed ≡ false
      over true y e = ground arith
      over false y e = ground arith

  release_row-Inv :
      (id : String) (r : Reservation) (expiring : Bool) (status : Status) (s : Store Tables)
      {s' : Store Tables}
      → Inv s.tables
      → find_reservation r.id s.tables ≡ some r
      → r.status ≡ status
      → release_row c id r expiring status s ≡ (ok tt, s')
      → Inv s'.tables
  release_row-Inv id r expiring confirmed s v found e h = free-Inv id r expiring s v found e h
  release_row-Inv id r expiring completed s v found e h = absurd (cc)
  release_row-Inv id r expiring rejected s v found e h =
      subst (λ (s : Store Tables). Inv s.tables) (sym (pure-tables s tt h)) v
  release_row-Inv id r expiring cancelled s v found e h =
      subst (λ (s : Store Tables). Inv s.tables) (sym (pure-tables s tt h)) v
  release_row-Inv id r expiring expired s v found e h =
      subst (λ (s : Store Tables). Inv s.tables) (sym (pure-tables s tt h)) v

  -- Releasing a reservation that was found, whether it is cancelled or expires, keeps the invariant.
  pub release-Inv :
      (id : String) (expiring : Bool) (s : Store Tables) {s' : Store Tables}
      → Inv s.tables
      → release c id expiring s ≡ (ok tt, s')
      → Inv s'.tables
  unfolding release
  release-Inv id expiring s v h = or_throw-then s (c.cast id) _ _ h λ k _ h.
      or_throw-then s (find_reservation k s.tables) _ _ h λ r found h.
        let key : r.id ≡ k = find_row-key reservation_key k s.tables.reservations found in
        release_row-Inv id r expiring r.status s v
          (subst (λ j. find_reservation j s.tables ≡ some r) (sym key) found) refl h
