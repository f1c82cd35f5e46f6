-- ===== src/Inventory/Invariant/Return.antt =====
-- A reservation that ends gives back, lot by lot, what it was given.
use logicore_wms.Base.{
  ℕ, String, Bool, true, none, some, ◌+◌, ◌≡◌, refl, sym, ap, ◌∙◌, subst, arith, if◌then◌else◌, inl,
  inr, is_some,
}
use logicore_wms.Base.Rows.{find_row, find_row-key, some_inj}
use logicore_wms.Platform.Types.{Context, ok}
use logicore_wms.Platform.Json.{Payload, string_at}
use logicore_wms.Platform.Tx.{Store}
use logicore_wms.Platform.Tx.Steps.{or_throw-then, execute-then, bind-then, emit-tables}
use logicore_wms.Inventory.Tables.{
  Tables, Status, confirmed, rejected, cancelled, expired, completed, Reservation, reservation_key,
  find_reservation, update_reservation, allocations_of,
}
use logicore_wms.Inventory.Tables.Rows.{update_reservation-then}
use logicore_wms.Inventory.Reserve.{reserve}
use logicore_wms.Inventory.Fulfil.{
  is_status, unreserve_all, with_status, free, release_row, release,
}
use logicore_wms.Inventory.Invariant.{Inv, reserved_at, is_live}
use logicore_wms.Inventory.Invariant.Claims.{share}
use logicore_wms.Inventory.Invariant.Close.{Sound-Inv, units-allocations_of, units-reserved}
use logicore_wms.Inventory.Invariant.Release.{unreserve_all-Lowered}
use logicore_wms.Inventory.Invariant.Reserve.{reserve-Inv, reserve-Reserved}

-- What the allocations of reservation `r` hold has been given back.
abbrev Returned : ℕ → Tables → Tables → Type 0
Returned r t t' =
    (k : ℕ) → reserved_at k t'.stocks + share r k t.allocations ≡ reserved_at k t.stocks

module _ (c : Context) where
  free-Returned :
      (id : String) (r : Reservation) (expiring : Bool) (s : Store Tables) {s' : Store Tables}
      → Inv s.tables
      → find_reservation r.id s.tables ≡ some r
      → r.status ≡ confirmed
      → free c id r expiring s ≡ (ok tt, s')
      → Returned r.id s.tables s'.tables
  unfolding free
  free-Returned id r expiring s v found live h =
      bind-then s (unreserve_all (allocations_of r.id s.tables)) _ h λ _ s1 h1 h.
        let all = λ (j : ℕ). units-allocations_of j r.id s.tables in
        let d =
          unreserve_all-Lowered (allocations_of r.id s.tables) s (Sound-Inv v)
            (units-reserved r.id (allocations_of r.id s.tables) v found live all) h1 in
        let status = if expiring then expired else cancelled in
        execute-then s1 (update_reservation r.id (with_status status)) _ h λ t2 e2 h.
          update_reservation-then r.id (with_status status) s1.tables
            (subst (λ rows. find_row reservation_key r.id rows ≡ some r) (sym d.reservations) found)
            (λ y q. ground arith) e2
            λ y ry u stay k.
              let same = emit-tables (record s1 { tables = t2 }) c _ _ h ∙ stay in
              omega (arith, d.lowered k, all k, ap (λ (t : Tables). reserved_at k t.stocks) same)

  release_row-Returned :
      (id : String) (r : Reservation) (expiring : Bool) (status : Status) (s : Store Tables)
      {s' : Store Tables}
      → Inv s.tables
      → find_reservation r.id s.tables ≡ some r
      → r.status ≡ status
      → is_status r.status confirmed ≡ true
      → release_row c id r expiring status s ≡ (ok tt, s')
      → Returned r.id s.tables s'.tables
  release_row-Returned id r expiring confirmed s v found e live h =
      free-Returned id r expiring s v found e h
  release_row-Returned id r expiring completed s v found e live h = absurd (ground (arith, e, live))
  release_row-Returned id r expiring rejected s v found e live h = absurd (ground (arith, e, live))
  release_row-Returned id r expiring cancelled s v found e live h = absurd (ground (arith, e, live))
  release_row-Returned id r expiring expired s v found e live h = absurd (ground (arith, e, live))

  release-Returned :
      (id : String) (expiring : Bool) (k : ℕ) (s : Store Tables) {s' : Store Tables}
      → Inv s.tables
      → c.cast id ≡ some k
      → is_live k s.tables.reservations ≡ true
      → release c id expiring s ≡ (ok tt, s')
      → Returned k s.tables s'.tables
  unfolding release
  release-Returned id expiring k s {s'} v reads live h =
      or_throw-then s (c.cast id) _ _ h λ j reads' h.
        or_throw-then s (find_reservation j s.tables) _ _ h λ r found h.
          let key : r.id ≡ j = find_row-key reservation_key j s.tables.reservations found in
          let same : j ≡ k = some_inj (sym reads' ∙ reads) in
          let here : find_reservation r.id s.tables ≡ some r =
            subst (λ j. find_reservation j s.tables ≡ some r) (sym key) found in
          subst (λ i. Returned i s.tables s'.tables) (key ∙ same)
            (release_row-Returned id r expiring r.status s v here refl
              (ground (
                arith,
                subst (λ i. is_live i s.tables.reservations ≡ true) (sym (key ∙ same)) live,
                here,
              ))
              h)

  -- What is released has a row.
  release-known :
      (id : String) (expiring : Bool) (k : ℕ) (s : Store Tables) {s' : Store Tables}
      → c.cast id ≡ some k
      → release c id expiring s ≡ (ok tt, s')
      → is_some (find_reservation k s.tables) ≡ true
  unfolding release
  release-known id expiring k s reads h = or_throw-then s (c.cast id) _ _ h λ j reads' h.
      or_throw-then s (find_reservation j s.tables) _ _ h λ r found h.
        subst (λ i. is_some (find_reservation i s.tables) ≡ true) (some_inj (sym reads' ∙ reads))
          (rw found refl)

-- A reservation that is made and then released, by a cancellation or as it expires, leaves of every
-- lot as much reserved as there was before, on consistent tables on which it had no row. Its
-- identifier is read alike both times.
pub reserve-release :
    (c c' : Context) (payload : Payload) (expiring : Bool) (id : ℕ) (s : Store Tables)
    {s1 s2 : Store Tables}
    → Inv s.tables
    → c.cast (string_at payload "reservationId") ≡ some id
    → c'.cast (string_at payload "reservationId") ≡ some id
    → find_reservation id s.tables ≡ none
    → reserve c payload s ≡ (ok tt, s1)
    → release c' (string_at payload "reservationId") expiring s1 ≡ (ok tt, s2)
    → (k : ℕ) → reserved_at k s2.tables.stocks ≡ reserved_at k s.tables.stocks
reserve-release c c' payload expiring id s {s1} {s2} v reads reads' new made freed k =
    elim (reserve-Reserved c payload s v made) [
      | inl same ↦
          let known =
            release-known c' (string_at payload "reservationId") expiring id s1 reads' freed in
          absurd (
            ground (
              arith,
              subst (λ (t : Tables). is_some (find_reservation id t) ≡ true) same known,
              new,
            ))
      | inr d ↦
          let e : d.id ≡ id = some_inj (sym d.reads ∙ reads) in
          let back =
            release-Returned c' (string_at payload "reservationId") expiring id s1
              (reserve-Inv c payload s v made) reads'
              (subst (λ i. is_live i s1.tables.reservations ≡ true) e d.confirms) freed k in
          omega (arith, back, d.shares k, ap (λ i. share i k s1.tables.allocations) e)
    ]
