-- ===== src/Inventory/Expiry/Tick.antt =====
-- What is left of the reservations that a tick selects.
use logicore_wms.Base.{
  ℕ, true, Option, none, some, List, [], ◌∷◌, ◌≡◌, ◌≢◌, refl, sym, ap, ◌∙◌, subst, arith, All,
  All-take, All-kept, keep, is_some, leb, ◌&&◌, Option-cases, inl, inr,
}
use logicore_wms.Base.Rows.{find_row, find_row-key, rows_found}
use logicore_wms.Platform.Types.{Context, Result, internal, ok, id_check}
use logicore_wms.Platform.Tx.{Store, cast, or_throw, lock, ◌>>◌}
use logicore_wms.Platform.Tx.Progress.{Passes, bind-Passes, transaction-Passes}
use logicore_wms.Inventory.Tables.{
  Tables, Status, confirmed, rejected, cancelled, expired, completed, Reservation, reservation_key,
  find_reservation,
}
use logicore_wms.Inventory.Fulfil.{is_status, release_row, release}
use logicore_wms.Inventory.Service.{due, expire_one, expire_all, expire}
use logicore_wms.Inventory.Invariant.{Inv}
use logicore_wms.Inventory.Invariant.Runs.{Inv-Direction}
use logicore_wms.Inventory.Runs.{expire_one-moves, expire_all-moves}
use logicore_wms.Inventory.Life.{
  Phase, Move, confirm, refuse, cancel, complete, Course, rest, move, Evolves, phase,
}
use logicore_wms.Inventory.Life as Life
use logicore_wms.Inventory.Life.Runs.{Life-Direction, Course-final}
use logicore_wms.Inventory.Expiry.{free-Passes}

-- A reservation that has a row, and one that is not confirmed any more.
abbrev Known : ℕ → List Reservation → Type 0
Known k l = (p : Phase) × (phase k l ≡ some p)

abbrev pub Gone : ℕ → List Reservation → Type 0
Gone k l = (p : Phase) × (phase k l ≡ some p) × (p.0 ≢ confirmed)

Gone-Evolves : (k : ℕ) (l l' : List Reservation) → Evolves l l' → Gone k l → Gone k l'
Gone-Evolves k l l' v (p, e, final) = (p, Course-final p final (v k) e ∙ e, final)

Move-some : {a b : Option Phase} → Move a b → (p : Phase) × (b ≡ some p)
Move-some confirm = ((confirmed, none), refl)
Move-some refuse = ((rejected, none), refl)
Move-some (cancel o) = ((cancelled, o), refl)
Move-some (Life.expire o) = ((expired, o), refl)
Move-some (complete o shipment) = ((completed, some shipment), refl)

Course-some :
    {a b : Option Phase} (p : Phase) → Course a b → a ≡ some p → (q : Phase) × (b ≡ some q)
Course-some p (rest a) e = (p, e)
Course-some p (move m h) e = let (q, f) = Move-some m in Course-some q h f

Known-Evolves : (k : ℕ) (l l' : List Reservation) → Evolves l l' → Known k l → Known k l'
Known-Evolves k l l' v (p, e) = Course-some p (v k) e

module _ (c : Context) (reads : (k : ℕ) → c.cast (c.text k) ≡ some k)
    (written : (k : ℕ) → c.is_uuid (c.text k) ≡ true) where
  release-Passes :
      (x : Reservation) (s : Store Tables)
      → Inv s.tables
      → find_reservation x.id s.tables ≡ some x
      → x.status ≡ confirmed
      → Passes
          (λ s'. find_reservation x.id s'.tables ≡ some (record x { status = expired }))
          (release c (c.text x.id) true)
          s
  unfolding release
  release-Passes x s v found live =
      bind-Passes (cast c (c.text x.id)) _ s {a = x.id} {s1 = s} (rw (cast, reads x.id) refl) (
        bind-Passes
          (or_throw (find_reservation x.id s.tables)
            (internal "reservation command not yet processed"))
          (λ r. release_row c (c.text x.id) r true r.status) s {a = x} {s1 = s} (rw found refl)
          (subst
            (λ st.
              Passes (λ s'. find_reservation x.id s'.tables ≡ some (record x { status = expired }))
                (release_row c (c.text x.id) x true st) s)
            (sym live) (free-Passes c (c.text x.id) x true s v found live)))

  lock-run :
      (w : ℕ) (s : Store Tables)
      → lock c (c.text w) s ≡ (ok tt, record s { locks = (0, c.text w) ∷ s.locks })
  unfolding lock id_check
  lock-run w s = ground (arith, written w)

  expired_one :
      (row x : Reservation) (s : Store Tables)
      → Inv s.tables
      → find_reservation row.id s.tables ≡ some x
      → x.status ≡ confirmed
      → Gone row.id (expire_one c row s).1.tables.reservations
  expired_one row x s v found live =
      let key : x.id ≡ row.id = find_row-key reservation_key row.id s.tables.reservations found in
      let (_, s', e, p) =
        transaction-Passes (λ t. find_reservation row.id t ≡ some (record x { status = expired }))
          (lock c (c.text row.warehouse_id) >> release c (c.text row.id) true) s
          (bind-Passes (lock c (c.text row.warehouse_id)) _ (record s { locks = [] })
            (lock-run row.warehouse_id (record s { locks = [] }))
            (subst
              (λ k.
                Passes (λ s'. find_reservation k s'.tables ≡ some (record x { status = expired }))
                  (release c (c.text k) true)
                  (record s { locks = (0, c.text row.warehouse_id) ∷ [] }))
              key
              (release-Passes x (record s { locks = (0, c.text row.warehouse_id) ∷ [] }) v
                (subst (λ k. find_reservation k s.tables ≡ some x) (sym key) found) live))) in
      (
        (expired, x.shipment_id),
        ap (λ (r : Result (Unit {0}) × Store Tables). phase row.id r.1.tables.reservations) e
            ∙ rw p refl,
        λ z. cc,
      )

  -- Whatever status the row has before.
  expire_one-Gone :
      (row : Reservation) (s : Store Tables)
      → Inv s.tables
      → Known row.id s.tables.reservations
      → Gone row.id (expire_one c row s).1.tables.reservations
  expire_one-Gone row s v known = elim (Option-cases (find_reservation row.id s.tables)) [
    | inl absent ↦ absurd (missing absent known)
    | inr (x, found) ↦ go x x.status refl found
  ]
    where
      missing : find_reservation row.id s.tables ≡ none → Known row.id s.tables.reservations → ⊥
      missing absent (p, e) = ground (arith, absent, e)

      before :
          (x : Reservation)
          → find_reservation row.id s.tables ≡ some x
          → x.status ≢ confirmed
          → Gone row.id (expire_one c row s).1.tables.reservations
      before x found final =
          Gone-Evolves row.id s.tables.reservations (expire_one c row s).1.tables.reservations
            (expire_one-moves Life-Direction c row s)
            ((x.status, x.shipment_id), rw found refl, final)

      go :
          (x : Reservation) (status : Status)
          → x.status ≡ status
          → find_reservation row.id s.tables ≡ some x
          → Gone row.id (expire_one c row s).1.tables.reservations
      go x confirmed e found = expired_one row x s v found e
      go x rejected e found = before x found (λ z. cc)
      go x cancelled e found = before x found (λ z. cc)
      go x expired e found = before x found (λ z. cc)
      go x completed e found = before x found (λ z. cc)

  expire_all-Gone :
      (batch : List Reservation) (s : Store Tables)
      → Inv s.tables
      → All (λ r. Known r.id s.tables.reservations) batch
      → All (λ r. Gone r.id (expire_all c batch s).tables.reservations) batch
  unfolding expire_all
  expire_all-Gone [] s v known = tt
  expire_all-Gone (row ∷ batch) s v (k, known) =
      let s1 = (expire_one c row s).1 in
      let later = expire_all-moves Life-Direction c batch s1 in
      (
        Gone-Evolves row.id s1.tables.reservations (expire_all c batch s1).tables.reservations later
            (expire_one-Gone row s v k),
        expire_all-Gone batch s1 (expire_one-moves Inv-Direction c row s v) (still batch known),
      )
    where
      still :
          (l : List Reservation)
          → All (λ r. Known r.id s.tables.reservations) l
          → All (λ r. Known r.id (expire_one c row s).1.tables.reservations) l
      still [] a = tt
      still (r ∷ l) (k, a) = (
        Known-Evolves r.id s.tables.reservations (expire_one c row s).1.tables.reservations
            (expire_one-moves Life-Direction c row s) k,
        still l a,
      )

-- Every row of the table is found under its identifier.
rows-Known : (rows : List Reservation) → All (λ r. Known r.id rows) rows
rows-Known rows = go rows (rows_found reservation_key rows)
  where
    go :
        (l : List Reservation)
        → All (λ r. is_some (find_row reservation_key r.id rows) ≡ true) l
        → All (λ r. Known r.id rows) l
    go [] a = tt
    go (r ∷ l) (e, a) = (known (find_row reservation_key r.id rows) e, go l a)
      where
        known :
            (o : Option Reservation) → is_some o ≡ true → (p : Phase) × (Life.phase_of o ≡ some p)
        known (some x) e = ((x.status, x.shipment_id), refl)
        known none e = cc

-- A tick of the expiry worker: none of the reservations that it selects, the first hundred that are due, is
-- confirmed afterwards. The tables are consistent, and uuids read back from their texts.
pub expire-Gone :
    (c : Context) (s : Store Tables)
    → ((k : ℕ) → c.cast (c.text k) ≡ some k)
    → ((k : ℕ) → c.is_uuid (c.text k) ≡ true)
    → Inv s.tables
    → All (λ r. Gone r.id (expire c s).tables.reservations) (due c s.tables)
unfolding expire due
expire-Gone c s reads written v =
    let is_due = λ (r : Reservation). is_status r.status confirmed && leb r.expires_at c.db_now in
    expire_all-Gone c reads written (due c s.tables) s v (
      All-take (λ r. Known r.id s.tables.reservations) 100 (keep is_due s.tables.reservations)
        (All-kept (λ r. Known r.id s.tables.reservations) is_due s.tables.reservations
          (rows-Known s.tables.reservations)))
