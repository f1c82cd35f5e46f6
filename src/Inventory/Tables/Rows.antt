-- ===== src/Inventory/Tables/Rows.antt =====
-- What an `update … where id=$1` of each table does, when its row is there.
use logicore_wms.Base.{
  ℕ, Option, none, some, List, [], ◌∷◌, ◌++◌, ◌≡◌, refl, sym, subst, arith, String,
}
use logicore_wms.Base.Rows.{
  update_row-absent, update_row, Updated, update_row-Updated, find_row-key,
}
use logicore_wms.Inventory.Stock.{Stock}
use logicore_wms.Inventory.Tables.{
  Tables, Capacity, Reservation, stock_key, capacity_key, reservation_key, find_stock,
  find_capacity, find_reservation, with_stocks, with_capacities, with_reservations, update_stock,
  update_capacity, update_reservation, stock, insert_stock,
}
use logicore_wms.Platform.Types.{Context, ok}
use logicore_wms.Platform.Tx.{Tx, Store, ◌>>=◌}
use logicore_wms.Platform.Tx.Steps.{bind-then, or_throw-then, or_throw-end}

module _ {G : Type 0} (k : ℕ) where
  pub update_stock-then :
      (f : Stock → Option Stock) (t : Tables) {x : Stock} {t' : Tables}
      → find_stock k t ≡ some x
      → ((y : Stock) → f x ≡ some y → y.id ≡ x.id)
      → update_stock k f t ≡ some t'
      → ((y : Stock)
          → f x ≡ some y
          → Updated stock_key k t.stocks t'.stocks x y
          → t' ≡ record t { stocks = t'.stocks }
          → G)
      → G
  unfolding update_stock
  update_stock-then f t {x} {t'} e keeps h go = split (update_row stock_key k f t.stocks) refl h
    where
      split :
          (o : Option (List Stock))
          → update_row stock_key k f t.stocks ≡ o
          → with_stocks t o ≡ some t'
          → G
      split none q h = absurd (cc)
      split (some l) q h =
          let p : t' ≡ record t { stocks = l } = ground arith in
          let (y, r, u) = update_row-Updated stock_key k f t.stocks keeps e q in
          go y r (rw p u) (rw p refl)

  pub update_capacity-then :
      (f : Capacity → Option Capacity) (t : Tables) {x : Capacity} {t' : Tables}
      → find_capacity k t ≡ some x
      → ((y : Capacity) → f x ≡ some y → y.location_id ≡ x.location_id)
      → update_capacity k f t ≡ some t'
      → ((y : Capacity)
          → f x ≡ some y
          → Updated capacity_key k t.capacities t'.capacities x y
          → t' ≡ record t { capacities = t'.capacities }
          → G)
      → G
  unfolding update_capacity
  update_capacity-then f t {x} {t'} e keeps h go =
      split (update_row capacity_key k f t.capacities) refl h
    where
      split :
          (o : Option (List Capacity))
          → update_row capacity_key k f t.capacities ≡ o
          → with_capacities t o ≡ some t'
          → G
      split none q h = absurd (cc)
      split (some l) q h =
          let p : t' ≡ record t { capacities = l } = ground arith in
          let (y, r, u) = update_row-Updated capacity_key k f t.capacities keeps e q in
          go y r (rw p u) (rw p refl)

  pub update_reservation-then :
      (f : Reservation → Option Reservation) (t : Tables) {x : Reservation} {t' : Tables}
      → find_reservation k t ≡ some x
      → ((y : Reservation) → f x ≡ some y → y.id ≡ x.id)
      → update_reservation k f t ≡ some t'
      → ((y : Reservation)
          → f x ≡ some y
          → Updated reservation_key k t.reservations t'.reservations x y
          → t' ≡ record t { reservations = t'.reservations }
          → G)
      → G
  unfolding update_reservation
  update_reservation-then f t {x} {t'} e keeps h go =
      split (update_row reservation_key k f t.reservations) refl h
    where
      split :
          (o : Option (List Reservation))
          → update_row reservation_key k f t.reservations ≡ o
          → with_reservations t o ≡ some t'
          → G
      split none q h = absurd (cc)
      split (some l) q h =
          let p : t' ≡ record t { reservations = l } = ground arith in
          let (y, r, u) = update_row-Updated reservation_key k f t.reservations keeps e q in
          go y r (rw p u) (rw p refl)

-- `stock`: the lot that it finds is the row with its own id.
pub stock-then :
    {B G : Type 0} (c : Context) (id : String) (f : Stock → Tx Tables B) (s : Store Tables) {b : B}
    {s' : Store Tables}
    → (stock c id >>= f) s ≡ (ok b, s')
    → ((x : Stock)
        → c.cast id ≡ some x.id
        → find_stock x.id s.tables ≡ some x
        → f x s ≡ (ok b, s')
        → G)
    → G
unfolding stock
stock-then c id f s h go = bind-then s (stock c id) f h λ x s1 h1 h2.
    or_throw-then s (c.cast id) _ _ h1 λ k e1 h1.
      let (e2, stay) = or_throw-end s (find_stock k s.tables) _ h1 in
      let key : x.id ≡ k = find_row-key stock_key k s.tables.stocks e2 in
      go x (rw key e1) (subst (λ j. find_stock j s.tables ≡ some x) (sym key) e2) (rw stay at h2)

-- The row that `insert into stocks` adds: the last one, under an id that was free.
pub insert_stock-then :
    {G : Type 0} (c : Context) (z : Stock) (t : Tables) {t' : Tables}
    → insert_stock c z t ≡ some t'
    → (find_stock z.id t ≡ none
        → t' ≡ record t {
          stocks = t.stocks ++ (record z { reserved = 0; created_at = c.db_now } ∷ []);
        }
        → G)
    → G
unfolding insert_stock
insert_stock-then c z t h go = go (ground arith) (ground arith)

-- An update of a lot that is not there changes nothing.
pub update_stock-absent :
    (k : ℕ) (f : Stock → Option Stock) (t : Tables)
    → find_stock k t ≡ none
    → update_stock k f t ≡ some t
unfolding update_stock
update_stock-absent k f t h = rw (update_row-absent stock_key k f t.stocks h) refl
