-- ===== src/Platform/Inbox.antt =====
-- `Process` of libs/platform/messaging.go: the inbox marker and the handler's writes are committed
-- together. A handler is an action over the service's tables.
pub mod Laws
pub mod Again
use logicore_wms.Base.{
  ℕ, String, Bool, true, false, Option, none, some, List, [], ◌∷◌, ◌&&◌, ◌||◌, any, ◌==◌,
  if◌then◌else◌, str_eq,
}
use logicore_wms.Platform.Types.{Context, Error, internal, Result, ok, err}
use logicore_wms.Platform.Tx.{Store, Tx, Event, ◌>>=◌, pure, transaction}

abbrev pub Handler : Type 0 → Type 0
Handler T = Context → Event → Tx T (Unit {0})

abbrev pub is_marked : ℕ → String → List (ℕ × String) → Bool
is_marked id consumer = any λ row. row.0 == id && str_eq row.1 consumer

-- `insert into processed_events … on conflict do nothing`: the number of rows that it inserted.
abbrev pub mark_row : {T : Type 0} → Context → Option ℕ → Tx T ℕ
mark_row c none s = (err (internal "invalid input syntax for type uuid"), s)
mark_row c (some id) s =
    if is_marked id c.name s.processed
    then (ok 0, s)
    else (ok 1, record s { processed = (id, c.name) ∷ s.processed })

unfoldable pub mark : {T : Type 0} → Context → String → Tx T ℕ
mark c id = mark_row c (c.cast id)

-- `Process`
unfoldable pub process : {T : Type 0} → Context → Handler T → Event → Tx T (Unit {0})
process c handler event =
    transaction do affected ← mark c event.id; if affected == 0 then pure tt else handler c event
