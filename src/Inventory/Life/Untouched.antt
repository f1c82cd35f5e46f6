-- ===== src/Inventory/Life/Untouched.antt =====
-- Operations on lots and ledgers leave the reservations alone.
use logicore_wms.Base.{
  refl, ap, ◌∙◌, sym, ℕ, String, Option, none, some, [], ◌∷◌, ◌-◌, min, List, ◌≡◌, arith,
}
use logicore_wms.Platform.Types.{Context, Result, ok}
use logicore_wms.Platform.Tx.{Store, Tx, EventType, execute, emit, lock}
use logicore_wms.Platform.Tx.Frame.{
  Frames, frames, Frames-pure, Frames-if, Frames-then, Frames-bind,
}
use logicore_wms.Inventory.Stock.{Stock, Line}
use logicore_wms.Inventory.Tables.{
  Tables, Capacity, Reservation, with_stocks, with_capacities, update_stock, update_capacity,
  open_capacity, insert_stock, insert_allocation, Allocation, stock, stock_key, capacity_key,
}
use logicore_wms.Base.Int.{ℤ}
use logicore_wms.Base.Rows.{update_row}
use logicore_wms.Inventory.Capacity.{Catalog, capacity}
use logicore_wms.Platform.Json.{Payload, nil}
use logicore_wms.Inventory.Changes.{
  Receive, Change, Action, move, write_off, adjust, receive, recharge, recharge_at, adjust_to,
  move_to, take_out, change_lot, change, destination,
}
use logicore_wms.Inventory.Fulfil.{unreserve_all, ship_line, ship_lines, place_at, place}
use logicore_wms.Inventory.Lots.{Lot}
use logicore_wms.Inventory.Reserve.{draw, allocate, reserve_line, reserve_lines}

abbrev pub reservations_of : Tables → List Reservation
reservations_of t = t.reservations

abbrev pub rest_of : Store Tables → List Reservation × List (ℕ × String)
rest_of s = (s.tables.reservations, s.processed)

-- An action that changes no reservation and leaves the inbox alone.
abbrev pub Untouched : {A : Type 0} → Tx Tables A → Type 0
Untouched m = Frames rest_of m

pub execute-Untouched :
    (f : Tables → Option Tables)
    → ((t t' : Tables) → f t ≡ some t' → t'.reservations ≡ t.reservations)
    → Untouched (execute f)
execute-Untouched f keeps = record { apply = λ s a s' h. go s s' (f s.tables) refl h }
  where
    go :
        (s s' : Store Tables) (o : Option Tables)
        → f s.tables ≡ o
        → execute (λ _. o) s ≡ (ok tt, s')
        → rest_of s' ≡ rest_of s
    go s s' none e h = absurd (cc)
    go s s' (some t) e h =
        ap (λ (r : Result (Unit {0}) × Store Tables). rest_of r.1) (sym h)
        ∙ ap (λ l. (l, s.processed)) (keeps s.tables t e)

pub emit-Untouched : (c : Context) (kind : EventType) (p : Payload) → Untouched (emit c kind p)
unfolding emit
emit-Untouched c kind p = record {
  apply = λ s a s' h. ap (λ (r : Result (Unit {0}) × Store Tables). rest_of r.1) (sym h);
}

pub lock-Untouched : (c : Context) (w : String) → Untouched (lock c w)
unfolding lock
lock-Untouched c w = record { apply = λ s a s' h. ground arith }

-- Of the two, what becomes of the reservations.
pub Untouched-reservations :
    {A : Type 0} {m : Tx Tables A}
    → Untouched m
    → (s : Store Tables) (a : A) {s' : Store Tables} → m s ≡ (ok a, s')
    → s'.tables.reservations ≡ s.tables.reservations
Untouched-reservations u s a {s'} h = ap (λ p. p.0) (u.apply s a s' h)

with_stocks-reservations :
    (t : Tables) (o : Option (List Stock)) {t' : Tables}
    → with_stocks t o ≡ some t'
    → t'.reservations ≡ t.reservations
with_stocks-reservations t (some l) h = ground arith
with_stocks-reservations t none h = cc

pub update_stock-Untouched :
    (k : ℕ) (f : Stock → Option Stock) → Untouched (execute (update_stock k f))
unfolding update_stock
update_stock-Untouched k f =
    execute-Untouched (update_stock k f)
      λ t t' h. with_stocks-reservations t (update_row stock_key k f t.stocks) h

with_capacities-reservations :
    (t : Tables) (o : Option (List Capacity)) {t' : Tables}
    → with_capacities t o ≡ some t'
    → t'.reservations ≡ t.reservations
with_capacities-reservations t (some l) h = ground arith
with_capacities-reservations t none h = cc

pub update_capacity-Untouched :
    (k : ℕ) (f : Capacity → Option Capacity) → Untouched (execute (update_capacity k f))
unfolding update_capacity
update_capacity-Untouched k f =
    execute-Untouched (update_capacity k f)
      λ t t' h. with_capacities-reservations t (update_row capacity_key k f t.capacities) h

pub open_capacity-Untouched : (l w : ℕ) → Untouched (execute (open_capacity l w))
unfolding open_capacity
open_capacity-Untouched l w = execute-Untouched (open_capacity l w) λ t t' h. ground arith

pub insert_stock-Untouched : (c : Context) (x : Stock) → Untouched (execute (insert_stock c x))
unfolding insert_stock
insert_stock-Untouched c x = execute-Untouched (insert_stock c x) λ t t' h. ground arith

pub insert_allocation-Untouched : (a : Allocation) → Untouched (execute (insert_allocation a))
unfolding insert_allocation
insert_allocation-Untouched a = execute-Untouched (insert_allocation a) λ t t' h. ground arith

pub stock-Untouched : (c : Context) (id : String) → Untouched (stock c id)
unfolding stock
stock-Untouched c id = search (frames)

pub ruleset untouched = (
  frames, emit-Untouched, lock-Untouched, update_stock-Untouched, update_capacity-Untouched,
  open_capacity-Untouched, insert_stock-Untouched, insert_allocation-Untouched, stock-Untouched,
)

pub capacity-Untouched :
    (c : Context) (cat : Catalog) (x : Stock) (location : String) (delta : ℤ)
    → Untouched (capacity c cat x location delta)
unfolding capacity
capacity-Untouched c cat x location delta = search (untouched) depth 25

module _ (c : Context) (cat : Catalog) where
  recharge_at-Untouched :
      (x : Stock) (delta : ℤ) (o : Option ℕ) → Untouched (recharge_at c cat x delta o)
  recharge_at-Untouched x delta none = Frames-pure tt
  recharge_at-Untouched x delta (some l) = capacity-Untouched c cat x (c.text l) delta

  recharge-Untouched : (x : Stock) (delta : ℤ) → Untouched (recharge c cat x delta)
  unfolding recharge
  recharge-Untouched x delta = recharge_at-Untouched x delta x.location_id

  pub receive-Untouched : (q : Receive) → Untouched (receive c cat q)
  unfolding receive
  receive-Untouched q = search (untouched) depth 25 fits 5000

  move_to-Untouched :
      (q : Change) (x : Stock) (payload : Payload) → Untouched (move_to c cat q x payload)
  unfolding move_to
  move_to-Untouched q x payload = search (untouched, capacity-Untouched) depth 25

  destination-Untouched :
      (action : Action) (q : Change) (x : Stock) (payload : Payload)
      → Untouched (destination c cat action q x payload)
  destination-Untouched move q x payload = move_to-Untouched q x payload
  destination-Untouched write_off q x payload = search (untouched) depth 25
  destination-Untouched adjust q x payload = search (untouched) depth 25

  take_out-Untouched :
      (action : Action) (q : Change) (x : Stock) → Untouched (take_out c cat action q x)
  unfolding take_out
  take_out-Untouched action q x =
      search (untouched, destination-Untouched, recharge-Untouched) depth 25

  adjust_to-Untouched : (q : Change) (x : Stock) → Untouched (adjust_to c cat q x)
  unfolding adjust_to
  adjust_to-Untouched q x = search (untouched, recharge-Untouched) depth 25

  change_lot-Untouched :
      (action : Action) (q : Change) (x : Stock) → Untouched (change_lot c cat action q x)
  change_lot-Untouched adjust q x = adjust_to-Untouched q x
  change_lot-Untouched move q x = take_out-Untouched move q x
  change_lot-Untouched write_off q x = take_out-Untouched write_off q x

  pub change-Untouched : (action : Action) (q : Change) → Untouched (change c cat action q)
  unfolding change
  change-Untouched action q = search (untouched, change_lot-Untouched) depth 25

  place_at-Untouched : (x : Stock) (location : String) → Untouched (place_at c cat x location)
  unfolding place_at
  place_at-Untouched x location = search (untouched, capacity-Untouched) depth 25

  pub place-Untouched : (payload : Payload) → Untouched (place c cat payload)
  unfolding place
  place-Untouched payload = search (untouched, place_at-Untouched) depth 25

  ship_line-Untouched : (a : Allocation) → Untouched (ship_line c cat a)
  unfolding ship_line
  ship_line-Untouched a = search (untouched, capacity-Untouched) depth 25

  pub ship_lines-Untouched : (l : List Allocation) → Untouched (ship_lines c cat l)
  unfolding ship_lines
  ship_lines-Untouched [] = Frames-pure nil
  ship_lines-Untouched (a ∷ l) =
      Frames-bind (ship_line-Untouched a)
        λ item. Frames-bind (ship_lines-Untouched l) λ items. Frames-pure _

pub unreserve_all-Untouched : (l : List Allocation) → Untouched (unreserve_all l)
unfolding unreserve_all
unreserve_all-Untouched [] = Frames-pure tt
unreserve_all-Untouched (a ∷ l) =
    Frames-then (update_stock-Untouched _ _) (unreserve_all-Untouched l)

draw-Untouched : (r lot take : ℕ) → Untouched (draw r lot take)
unfolding draw
draw-Untouched r lot take = search (untouched) depth 25

allocate-Untouched : (r : ℕ) (lots : List Lot) (asked : ℕ) → Untouched (allocate r lots asked)
unfolding allocate
allocate-Untouched r [] asked = Frames-pure asked
allocate-Untouched r (l ∷ lots) asked = Frames-if _ (Frames-pure asked) (
    Frames-then (draw-Untouched r l.id (min asked l.n))
      (allocate-Untouched r lots (asked - min asked l.n)))

reserve_line-Untouched :
    (c : Context) (r warehouse : ℕ) (seen : List String) (line : Line)
    → Untouched (reserve_line c r warehouse seen line)
unfolding reserve_line
reserve_line-Untouched c r warehouse seen line = search (untouched, allocate-Untouched) depth 25

pub reserve_lines-Untouched :
    (c : Context) (r warehouse : ℕ) (seen : List String) (lines : List Line)
    → Untouched (reserve_lines c r warehouse seen lines)
unfolding reserve_lines
reserve_lines-Untouched c r warehouse seen [] = Frames-pure tt
reserve_lines-Untouched c r warehouse seen (line ∷ lines) =
    Frames-then (reserve_line-Untouched c r warehouse seen line)
      (reserve_lines-Untouched c r warehouse (line.product_id ∷ seen) lines)
