-- ===== src/Platform/Types.antt =====
-- libs/platform/types.go: faults, events and identifiers. `Context` holds what a request brings
-- with it (`context.Context`, the clock, the runtime's name) and the code that is not in the
-- repository: uuid.Parse, PostgreSQL's cast to uuid and its text form, and the fresh identifiers.
use Prim.Native.String.{◌++◌}
use logicore_wms.Base.{ℕ, String, Bool, Option, if◌then◌else◌, str_eq}

pub record Fault : Type 0 where
  pub code : String
  pub message : String
  pub status : ℕ

-- `Error` of a `Fault`
unfoldable pub fault_text : Fault → String
fault_text f = f.code ++ ": " ++ f.message

-- A Go `error`: a `*Fault`, or any other error, of which only the text is known.
pub data Error : Type 0 where
  fault : Fault → Error
  internal : String → Error

-- `Fail`: a conflict.
abbrev pub fail : String → String → Error
fail code message = fault (record { code = code; message = message; status = 409 })

abbrev pub invalid : String → Error
invalid message = fault (record { code = "VALIDATION_ERROR"; message = message; status = 400 })

abbrev pub not_found : String → Error
not_found message = fault (record { code = "NOT_FOUND"; message = message; status = 404 })

pub data Result {ℓ} (A : Type ℓ) : Type ℓ where
  ok : A → Result A
  err : Error → Result A

-- `if e != nil { return …, e }`
abbrev pub after : {A B : Type 0} → Result A → (A → Result B) → Result B
after (ok a) f = f a
after (err e) f = err e

pub record Context : Type 0 where
  pub name : String
  pub correlation : String
  pub traceparent : String
  -- `time.Now()`, and the date of `time.Now().UTC()`
  pub now : ℕ
  pub today : ℕ
  -- PostgreSQL's `now()` and `current_date`
  pub db_now : ℕ
  pub current_date : ℕ
  -- whether google's `uuid.Parse` accepts a text
  pub is_uuid : String → Bool
  -- PostgreSQL's cast of a text to a uuid, and of a uuid to its text
  pub cast : String → Option ℕ
  pub text : ℕ → String
  -- `time.Parse` of a date (a day's number) and of an RFC 3339 instant
  pub parse_date : String → Option ℕ
  pub parse_time : String → Option ℕ
  -- `uuid.NewString()`: the identifier of the n-th row of the outbox, and of a new stock lot
  pub event_id : ℕ → String
  pub new_id : ℕ

-- `ID`
unfoldable pub id_check : Context → String → Result (Unit {0})
id_check c v = if c.is_uuid v then ok tt else err (invalid ("Invalid UUID: " ++ v))

-- `Env`: the value of a variable of the environment, or the default if it is empty or unset.
unfoldable pub env : (String → String) → String → String → String
env getenv k d = let v = getenv k in if str_eq v "" then d else v

-- The value of the context's key, if it is a text, or else a new uuid.
unfoldable pub correlation_of : Option String → String → String
correlation_of (Option.some v) fresh = v
correlation_of Option.none fresh = fresh
