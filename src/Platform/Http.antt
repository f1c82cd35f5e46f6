-- ===== src/Platform/Http.antt =====
-- libs/platform/http.go: the answer that `Wrap` makes of an endpoint's result, the reading of a
-- request's body, and the reading of another service's answer.
pub mod Laws
use Prim.Native.String.{len}
use logicore_wms.Base.{
  ℕ, String, Bool, true, false, not, Option, none, some, ◌||◌, ltb, ◌==◌, if◌then◌else◌, str_eq,
}
use logicore_wms.Platform.Types.{
  Fault, fault_text, Error, fault, internal, invalid, not_found, Result, ok, err,
}

pub data Content (A : Type 0) : Type 0 where
  value : A → Content A
  problem : String → String → Content A

pub record Response (A : Type 0) : Type 0 where
  pub status : ℕ
  pub correlation : String
  pub content : Content A

-- The caller's correlation id, unless it is empty or longer than 80 bytes.
unfoldable pub correlation_id : String → String → String
correlation_id header fresh = if len header == 0 || ltb 80 (len header) then fresh else header

unfoldable pub wrap : {A : Type 0} → String → String → (String → Result A) → Response A
unfolding correlation_id
wrap header fresh fn =
    let c = correlation_id header fresh in
    elim (fn c) [
      | ok v ↦ record { status = 200; correlation = c; content = value v }
      | err e ↦ elim e [
        | fault f ↦ record {
          status = f.status;
          correlation = c;
          content = problem f.code f.message;
        }
        | internal _ ↦ record {
          status = 500;
          correlation = c;
          content = problem "INTERNAL_ERROR" "Unexpected server error";
        }
      ]
    ]

-- What the decoder finds after a first value: nothing more, or something.
unfoldable pub body : {A : Type 0} → Result A → Bool → Result A
body (err (fault f)) at_end = err (invalid (fault_text f))
body (err (internal message)) at_end = err (invalid message)
body (ok v) at_end = if at_end then ok v else err (invalid "Expected a single JSON value")

-- A call of another service: it cannot be made, or comes back with a status and a text.
pub data Reply : Type 0 where
  unreachable : String → Reply
  answered : ℕ → String → Reply

-- `Get`: `decode` reads the `data` of the envelope, `status_text` is `http.StatusText`.
unfoldable pub get : {A : Type 0} → (String → Result A) → (ℕ → String) → Reply → Result A
get decode status_text (unreachable message) = err (internal message)
get decode status_text (answered status text) =
    if status == 404
    then err (not_found "Referenced resource not found")
    else if not (status == 200)
    then err (
        fault
          (record { code = "DEPENDENCY_UNAVAILABLE"; message = status_text status; status = 503 }))
    else decode text

-- `/health`: the first of the three dependencies that does not answer.
unfoldable pub health : Bool → Bool → Bool → Result String
health postgres redis kafka =
    if not postgres
    then err (down "PostgreSQL unavailable")
    else if not redis
    then err (down "Redis unavailable")
    else if not kafka
    then err (down "Kafka unavailable")
    else ok "UP"
  where
    down : String → Error
    down message = fault (record { code = "UNAVAILABLE"; message = message; status = 503 })
