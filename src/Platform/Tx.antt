-- ===== src/Platform/Tx.antt =====
-- A service's database and its transactions: libs/platform/db.go. A function that takes a `pgx.Tx`
-- and may fail is an action; what it wrote before an error stays in the state that it hands back,
-- and it is `transaction` that undoes it.
pub mod Steps
pub mod Frame
pub mod Progress
use logicore_wms.Base.{
  ℕ, String, Bool, false, Option, none, some, List, [], ◌∷◌, ◌++◌, ◌≡◌, refl, arith, length,
  if◌then◌else◌, str_eq,
}
use logicore_wms.Platform.Types.{Error, internal, Result, ok, err, Context, id_check}
use logicore_wms.Platform.Json.{Payload, string_at}

-- The names under which the services publish; `other` is any name that is none of these.
pub data EventType : Type 0 where
  reservation_requested reservation_cancellation_requested shipment_requested : EventType
  product_placement_assigned goods_received placement_rejected stock_added : EventType
  reservation_rejected shipment_rejected reservation_cancellation_rejected : EventType
  location_capacity_changed stock_reserved stock_reservation_cancelled : EventType
  reservation_expired stock_shipped stock_adjusted stock_written_off stock_moved : EventType
  other : String → EventType

pub record Event : Type 0 where
  pub id : String
  pub type : EventType
  pub version : ℕ
  pub timestamp : ℕ
  pub source : String
  pub correlation : String
  pub traceparent : String
  pub payload : Payload

-- A row of `outbox_events`; the rows stand in the order of `sequence`.
pub record Pending : Type 0 where
  pub id : String
  pub aggregate_id : String
  pub event_type : EventType
  pub payload : Event
  pub published : Bool

-- A row of `http_commands`.
pub record Saved : Type 0 where
  pub id : String
  pub fingerprint : String
  pub response : String

-- `T` is what the service keeps in its own tables; `locks` are the advisory locks that the running
-- transaction holds, each with the seed of its hash.
pub record Store (T : Type 0) : Type 0 where
  pub tables : T
  pub outbox : List Pending
  pub processed : List (ℕ × String)
  pub commands : List Saved
  pub locks : List (ℕ × String)

abbrev pub Tx : Type 0 → Type 0 → Type 0
Tx T A = Store T → Result A × Store T

module _ {T A : Type 0} where
  abbrev pub pure : A → Tx T A
  pure a s = (ok a, s)

  abbrev pub throw : Error → Tx T A
  throw e s = (err e, s)

  abbrev pub lift : Result A → Tx T A
  lift r s = (r, s)

  abbrev pub or_throw : Option A → Error → Tx T A
  or_throw none e s = (err e, s)
  or_throw (some a) e s = (ok a, s)

abbrev pub continue : {T A B : Type 0} → Result A × Store T → (A → Tx T B) → Result B × Store T
continue (ok a, s) f = f a s
continue (err e, s) f = (err e, s)

infixl 5 ◌>>=◌ ◌>>◌
abbrev pub ◌>>=◌ : {T A B : Type 0} → Tx T A → (A → Tx T B) → Tx T B
◌>>=◌ m f s = continue (m s) f

abbrev pub ◌>>◌ : {T A B : Type 0} → Tx T A → Tx T B → Tx T B
m >> k = m >>= λ _. k

abbrev pub gets : {T A : Type 0} → (T → A) → Tx T A
gets f s = (ok (f s.tables), s)

-- `$n` where the statement wants a uuid.
abbrev pub cast : {T : Type 0} → Context → String → Tx T ℕ
cast c v s = or_throw (c.cast v) (internal "invalid input syntax for type uuid") s

-- A statement that changes the tables, unless a constraint refuses it.
abbrev pub execute : {T : Type 0} → (T → Option T) → Tx T (Unit {0})
execute f s = elim (f s.tables) [
  | none ↦ (err (internal "constraint violation"), s)
  | some t ↦ (ok tt, record s { tables = t })
]

-- A statement that changes the tables.
abbrev pub modify : {T : Type 0} → (T → T) → Tx T (Unit {0})
modify f s = (ok tt, record s { tables = f s.tables })

-- `if b { return e }`
abbrev pub throw_if : {T : Type 0} → Bool → Error → Tx T (Unit {0})
throw_if b e s = (if b then err e else ok tt, s)

-- The advisory lock of a warehouse is that of the text, whatever uuid the text stands for.
unfoldable pub lock : {T : Type 0} → Context → String → Tx T (Unit {0})
unfolding id_check
lock c warehouse s = elim (id_check c warehouse) [
  | ok _ ↦ (ok tt, record s { locks = (0, warehouse) ∷ s.locks })
  | err e ↦ (err e, s)
]

abbrev pub key_of : String → String → String
key_of warehouse id = if str_eq warehouse "" then id else warehouse

abbrev pub event_of : Context → ℕ → EventType → Payload → Event
event_of c n kind payload = record {
  id = c.event_id n;
  type = kind;
  version = 1;
  timestamp = c.now;
  source = c.name;
  correlation = c.correlation;
  traceparent = c.traceparent;
  payload = payload;
}

abbrev pub pending_of : Context → ℕ → EventType → Payload → Pending
pending_of c n kind payload = record {
  id = c.event_id n;
  aggregate_id = key_of (string_at payload "warehouseId") (c.event_id n);
  event_type = kind;
  payload = event_of c n kind payload;
  published = false;
}

-- `Emit`
unfoldable pub emit : {T : Type 0} → Context → EventType → Payload → Tx T (Unit {0})
emit c kind payload s =
    (ok tt, record s { outbox = s.outbox ++ (pending_of c (length s.outbox) kind payload ∷ []) })

-- What `Begin`, `Rollback` and `Commit` leave: the locks end with the transaction.
abbrev pub end_of : {T A : Type 0} → Store T → Result A × Store T → Result A × Store T
end_of s (ok a, s') = (ok a, record s' { locks = s.locks })
end_of s (err e, s') = (err e, s)

-- `Transaction`
unfoldable pub transaction : {T A : Type 0} → Tx T A → Tx T A
transaction fn s = end_of s (fn (record s { locks = [] }))

abbrev pub undo : {T A : Type 0} → Store T → Result A × Store T → Result A × Store T
undo s (ok a, s') = (ok a, s')
undo s (err e, s') = (err e, s)

-- A savepoint: the nested transaction's writes are kept on success and undone on an error.
-- Locks that it took stay with the outer transaction.
unfoldable pub nested : {T A : Type 0} → Tx T A → Store T → Result A × Store T
nested fn s = undo s (fn s)

-- Inversion of a step that succeeded.
pub bind-ok :
    {T A B : Type 0} (m : Tx T A) (f : A → Tx T B) (s : Store T) {b : B} {s'' : Store T}
    → (m >>= f) s ≡ (ok b, s'')
    → (a : A) × (s' : Store T) × (m s ≡ (ok a, s')) × (f a s' ≡ (ok b, s''))
bind-ok {T} {A} {B} m f s {b} {s''} = go (m s) refl
  where
    go :
        (r : Result A × Store T)
        → m s ≡ r
        → continue r f ≡ (ok b, s'')
        → (a : A) × (s' : Store T) × (m s ≡ (ok a, s')) × (f a s' ≡ (ok b, s''))
    go (ok a, s') e h = (a, s', e, h)
    go (err x, s') e h = cc

module _ {T A : Type 0} (fn : Tx T A) (s : Store T) where
  -- A transaction that fails leaves nothing.
  pub transaction-err : {e : Error} {s' : Store T} → transaction fn s ≡ (err e, s') → s' ≡ s
  unfolding transaction
  transaction-err {e} {s'} h = go (fn (record s { locks = [] })) h
    where
      go : (r : Result A × Store T) → end_of s r ≡ (err e, s') → s' ≡ s
      go (ok a, s1) h = cc
      go (err x, s1) h = cc

  -- One that succeeds leaves what its body left, less the locks.
  pub transaction-ok :
      {a : A} {s' : Store T}
      → transaction fn s ≡ (ok a, s')
      → (s1 : Store T) × (fn (record s { locks = [] }) ≡ (ok a, s1))
        × (s' ≡ record s1 { locks = s.locks })
  unfolding transaction
  transaction-ok {a} {s'} h = go (fn (record s { locks = [] })) refl h
    where
      go :
          (r : Result A × Store T)
          → fn (record s { locks = [] }) ≡ r
          → end_of s r ≡ (ok a, s')
          → (s1 : Store T) × (fn (record s { locks = [] }) ≡ (ok a, s1))
            × (s' ≡ record s1 { locks = s.locks })
      go (ok b, s1) e h = (s1, ground arith, ground arith)
      go (err x, s1) e h = cc
