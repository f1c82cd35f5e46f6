-- ===== src/Inventory/Effects.antt =====
-- What `Change` does to the lots: which lot it changes, and how many units of each product there are
-- afterwards.
pub mod Rows
pub mod Steps
pub mod Outcome
use logicore_wms.Base.{
  ℕ, String, Bool, true, false, Option, none, some, List, [], ◌∷◌, ◌++◌, ◌+◌, ◌-◌, ◌≡◌, refl, sym,
  ap, ◌∙◌, subst, arith, ◌||◌, ◌==◌, is_some, not, if◌then◌else◌, str_eq, ◌&&◌, leb, sum_by,
  Bool-cases, inl, inr, ==_iff, sum_by-append, ◌≤◌, All,
}
use logicore_wms.Base.Int.{ℤ, pos, pos_part, neg, ◌-ℤ◌, ltb_ℤ}
use logicore_wms.Base.Rows.{Updated, some_inj, find_row, find_row-snoc}
use logicore_wms.Platform.Types.{Context, ok, id_check}
use logicore_wms.Platform.Json.{Payload}
use logicore_wms.Platform.Tx.{Store, Tx, pure, throw_if, lock, execute, emit, ◌>>◌, ◌>>=◌}
use logicore_wms.Platform.Tx.Steps.{
  lift-then, throw_if-then, or_throw-then, execute-then, bind-then, if-then, pure-tables,
  lock-tables, emitted-tables,
}
use logicore_wms.Inventory.Stock.{Stock, check_quantity, available}
use logicore_wms.Inventory.Tables.{
  Tables, stock_key, find_stock, update_stock, set_quantity, remove, insert_stock,
}
use logicore_wms.Inventory.Tables.Rows.{stock-then, update_stock-then, insert_stock-then}
use logicore_wms.Inventory.Capacity.{Catalog, capacity}
use logicore_wms.Inventory.Capacity.Ledger.{capacity-Charged}
use logicore_wms.Inventory.Changes.{
  Change, Action, move, write_off, adjust, billion, recharge, recharge_at, adjust_to, move_to,
  moved_lot, event_of_action, is_at, take_out, change_lot, change, is_zero, destination,
}

-- The units of a product in a lot, and in all lots.
abbrev pub units_in : ℕ → Stock → ℕ
units_in p x = if x.product_id == p then x.quantity else 0

abbrev pub units : ℕ → List Stock → ℕ
units p = sum_by (units_in p)

-- The units of its product that an action takes away and that it adds, and what the lot has left.
abbrev pub lost : Action → ℕ → Stock → ℕ
lost move n x = 0
lost write_off n x = n
lost adjust n x = x.quantity

abbrev pub gained : Action → ℕ → ℕ
gained adjust n = n
gained _ n = 0

abbrev pub left_of : Action → ℕ → Stock → ℕ
left_of adjust n x = n
left_of _ n x = x.quantity - n

abbrev pub is_adjust : Action → Bool
is_adjust adjust = true
is_adjust _ = false

-- The lots that an action adds.
abbrev pub added : Context → Action → ℕ → Stock → Option ℕ → List Stock
added c move n x (some to) = record (moved_lot c x to n) { created_at = c.db_now } ∷ []
added c _ n x _ = []

-- The lot that has the quantity and the rest of the lots, after `n` units of lot `x`.
pub record Effect (c : Context) (action : Action) (q : Change) (x : Stock) (rows rows' : List Stock)
    : Type 0 where
  pub units :
      (p : ℕ)
      → units p rows' + (if x.product_id == p then lost action (pos_part q.quantity) x else 0)
        ≡ units p rows + (if x.product_id == p then gained action (pos_part q.quantity) else 0)
  pub left :
      find_row stock_key x.id rows'
      ≡ some (record x { quantity = left_of action (pos_part q.quantity) x })
  pub others :
      (j : ℕ) {y : Stock}
      → (x.id == j) ≡ false
      → find_row stock_key j rows ≡ some y
      → find_row stock_key j rows' ≡ some y
  pub arrives :
      All
        (λ z. find_row stock_key z.id rows' ≡ some z)
        (added c action (pos_part q.quantity) x (c.cast q.to_location_id))
