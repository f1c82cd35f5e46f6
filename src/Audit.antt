-- ===== src/Audit.antt =====
-- services/audit-service/internal/application/service.go: the record of all events. The parser of
-- decimal numbers is a parameter.
pub mod Laws
pub mod Listing
pub mod Plans
pub mod Asked
pub mod Pages
pub mod Blocked
pub mod Tests
use logicore_wms.Base.{
  ℕ, String, Bool, true, false, not, Option, none, some, List, [], ◌∷◌, ◌||◌, is_some,
  if◌then◌else◌, str_eq,
}
use logicore_wms.Base.Int.{ℤ, pos, ltb_ℤ}
use logicore_wms.Base.Rows.{find_row}
use logicore_wms.Platform.Types.{Context, invalid, Result, ok, err, after}
use logicore_wms.Platform.Query.{check_optional}
use logicore_wms.Platform.Json.{Payload, string_at}
use logicore_wms.Platform.Tx.{Tx, Event, EventType, cast, execute, ◌>>=◌}

-- A row of `audit_events`; its `event_id` is its `id`.
pub record Entry : Type 0 where
  pub id : ℕ
  pub event_type : EventType
  pub aggregate_type : String
  pub aggregate_id : String
  pub payload : Payload
  pub timestamp : ℕ
  pub correlation : String
  pub source : String

abbrev pub entry_key : Entry → ℕ
entry_key x = x.id

abbrev pub subject_fields : List String
subject_fields =
    "stockId" ∷ "shipmentId" ∷ "reservationId" ∷ "locationId" ∷ "productId" ∷ "warehouseId" ∷ "id"
    ∷ []

-- What an event is about: the first of the fields that it has.
unfoldable pub subject : List String → String → Payload → String × String
subject [] id p = ("event", id)
subject (f ∷ fields) id p =
    if str_eq (string_at p f) "" then subject fields id p else (f, string_at p f)

abbrev pub entry_of : ℕ → Event → Entry
entry_of k e = record {
  id = k;
  event_type = e.type;
  aggregate_type = (subject subject_fields e.id e.payload).0;
  aggregate_id = (subject subject_fields e.id e.payload).1;
  payload = e.payload;
  timestamp = e.timestamp;
  correlation = e.correlation;
  source = e.source;
}

-- `insert … on conflict do nothing`
unfoldable pub insert_entry : Entry → List Entry → Option (List Entry)
insert_entry x l = if is_some (find_row entry_key x.id l) then some l else some (x ∷ l)

-- `Handle`
unfoldable pub handle : Context → Event → Tx (List Entry) (Unit {0})
handle c e = do k ← cast c e.id; execute (insert_entry (entry_of k e))

abbrev number_within : (ℤ → Bool) → String → Option ℤ → Result ℤ
number_within bad message none = err (invalid message)
number_within bad message (some n) = if bad n then err (invalid message) else ok n

abbrev limit_of : (String → Option ℤ) → String → Result ℤ
limit_of atoi v =
    if str_eq v ""
    then ok (pos 100)
    else number_within (λ n. ltb_ℤ n (pos 1) || ltb_ℤ (pos 500) n) "limit 1..500" (atoi v)

abbrev offset_of : (String → Option ℤ) → String → Result ℤ
offset_of atoi v =
    if str_eq v "" then ok (pos 0) else number_within (λ n. ltb_ℤ n (pos 0)) "offset >= 0" (atoi v)

-- `list` up to its query: the limit and the offset that it passes on.
unfoldable pub page :
    Context → (String → Option ℤ) → String → String → String → String → Result (ℤ × ℤ)
page c atoi product warehouse limit offset = after (check_optional c product) λ _.
    after (check_optional c warehouse)
      λ _. after (limit_of atoi limit) λ n. after (offset_of atoi offset) λ m. ok (n, m)
