-- ===== src/Platform/Commands.antt =====
-- `Command` of libs/platform/db.go: a request with an idempotency key runs once, and its answer is
-- kept.
pub mod Laws
use Prim.Native.String.{len}
use logicore_wms.Base.{
  ℕ, String, Bool, true, false, not, Option, none, some, List, [], ◌∷◌, ◌||◌, find?, ltb, ◌==◌,
  is_some, if◌then◌else◌, str_eq,
}
use logicore_wms.Platform.Types.{Context, Error, internal, fail, invalid, Result, ok, err}
use logicore_wms.Platform.Tx.{
  Store, Saved, Tx, ◌>>=◌, ◌>>◌, pure, lift, throw, throw_if, transaction,
}

-- What `encoding/json` and `crypto/sha256` make of a request and of an answer: the hexadecimal hash
-- of the request's JSON, and the JSON text of an answer and its reader.
pub record Codec (Request Answer : Type 0) : Type 0 where
  pub fingerprint : Request → Result String
  pub encode : Answer → Result String
  pub decode : String → Result Answer

-- `select fingerprint,response from http_commands where id=$1`
unfoldable pub saved_at : String → List Saved → Option Saved
saved_at key = find? λ row. str_eq row.id key

-- Not 1 to 128 bytes.
abbrev pub is_bad_key : String → Bool
is_bad_key key = len key == 0 || ltb 128 (len key)

module _ {T Request Answer : Type 0} (codec : Codec Request Answer) where
  -- `select pg_advisory_xact_lock(hashtextextended($1,1))`
  abbrev lock_key : String → Tx T (Unit {0})
  lock_key key s = (ok tt, record s { locks = (1, key) ∷ s.locks })

  abbrev find_saved : String → Tx T (Option Saved)
  find_saved key s = (ok (saved_at key s.commands), s)

  -- The key is the table's primary key.
  abbrev pub save : String → String → String → Tx T (Unit {0})
  save key hash body s =
      if is_some (saved_at key s.commands) then (err (internal "duplicate key value"), s) else (
        ok tt,
        record s {
          commands = record { id = key; fingerprint = hash; response = body } ∷ s.commands;
        },
      )

  -- What is done with the row that the key has, or has not.
  abbrev pub answer : String → String → Tx T Answer → Option Saved → Tx T Answer
  answer key hash fn (some previous) = do
    throw_if (not (str_eq previous.fingerprint hash))
        (fail "IDEMPOTENCY_CONFLICT" "Key reused with different request")
    lift (codec.decode previous.response)
  answer key hash fn none = do
    result ← fn
    body ← lift (codec.encode result)
    save key hash body
    pure result

  -- The body of the transaction.
  unfoldable pub answer_once : String → String → Tx T Answer → Tx T Answer
  answer_once key hash fn = do lock_key key; found ← find_saved key; answer key hash fn found

  -- `Command`
  unfoldable pub command : String → Request → Tx T Answer → Tx T Answer
  command key request fn = do
    throw_if (is_bad_key key) (invalid "Idempotency-Key is required (1-128 characters)")
    hash ← lift (codec.fingerprint request)
    transaction (answer_once key hash fn)
