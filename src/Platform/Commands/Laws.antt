-- ===== src/Platform/Commands/Laws.antt =====
-- Idempotency of a request with a key.
use logicore_wms.Base.{
  String, Bool, true, false, Option, none, some, List, [], ◌∷◌, ◌≡◌, refl, ◌≢◌, arith, eq_refl,
  eq_iff,
}
use logicore_wms.Platform.Types.{Error, Result, ok, err, fail}
use logicore_wms.Platform.Tx.{
  Store, Tx, Saved, ◌>>=◌, ◌>>◌, lift, pure, throw_if, bind-ok, transaction, transaction-ok, end_of,
  transaction-err,
}
use logicore_wms.Platform.Commands.{Codec, saved_at, save, is_bad_key, answer, answer_once, command}

saved_at_self : (row : Saved) (rows : List Saved) → saved_at row.id (row ∷ rows) ≡ some row
unfolding saved_at
saved_at_self row rows = rw (eq_refl row.id) refl

module _ {T Request Answer : Type 0} (codec : Codec Request Answer) where
  -- What is left of a call once its key has passed and its request is hashed.
  abbrev hashed : String → Tx T Answer → Result String → Tx T Answer
  hashed key fn r = lift r >>= λ hash. transaction (answer_once codec key hash fn)

  hashed-err :
      (key : String) (fn : Tx T Answer) (r : Result String) (s : Store T) {e : Error} {s' : Store T}
      → hashed key fn r s ≡ (err e, s')
      → s' ≡ s
  hashed-err key fn (ok hash) s h = transaction-err (answer_once codec key hash fn) s h
  hashed-err key fn (err x) s h = cc

  gated-err :
      (b : Bool) (x : Error) (k : Tx T Answer) (s : Store T) {e : Error} {s' : Store T}
      → (k s ≡ (err e, s') → s' ≡ s)
      → (throw_if b x >> k) s ≡ (err e, s')
      → s' ≡ s
  gated-err true x k s go h = cc
  gated-err false x k s go h = go h

  -- A call that fails leaves the store as it was, whatever `fn` had written, so that the key can be
  -- used again.
  command_failed :
      (key : String) (request : Request) (fn : Tx T Answer) (s : Store T) {e : Error} {s' : Store T}
      → command codec key request fn s ≡ (err e, s')
      → s' ≡ s
  unfolding command
  command_failed key request fn s h =
      gated-err (is_bad_key key) _ (hashed key fn (codec.fingerprint request)) s
        (hashed-err key fn (codec.fingerprint request) s) h

  -- The store has an answer to the key, given to a request with this hash.
  pub record Has (key hash : String) (a : Answer) (s : Store T) : Type 0 where
    pub row : Saved
    pub found : saved_at key s.commands ≡ some row
    pub same : row.fingerprint ≡ hash
    pub reads : codec.decode row.response ≡ ok a

  found-Has :
      (key hash : String) (fn : Tx T Answer) (row : Saved) (s : Store T) {a : Answer} {s' : Store T}
      → saved_at key s.commands ≡ some row
      → answer codec key hash fn (some row) s ≡ (ok a, s')
      → Has key hash a s'
  found-Has key hash fn row s {a} {s'} q h = record {
    row = row;
    found = ground (arith, eq_iff row.fingerprint hash);
    same = ground (arith, eq_iff row.fingerprint hash);
    reads = ground (arith, eq_iff row.fingerprint hash);
  }

  stored-Has :
      (key hash body : String) (x : Answer) (s : Store T) {a : Answer} {s' : Store T}
      → codec.decode body ≡ ok x
      → (save codec key hash body >> pure x) s ≡ (ok a, s')
      → Has key hash a s'
  stored-Has key hash body x s {a} {s'} q h = record {
    row = row;
    found = ground (arith, saved_at_self row s.commands);
    same = refl;
    reads = ground arith;
  }
    where
      row : Saved
      row = record { id = key; fingerprint = hash; response = body }

  fresh-Has :
      (key hash : String) (fn : Tx T Answer) (s : Store T) {a : Answer} {s' : Store T}
      → ((x : Answer) (b : String) → codec.encode x ≡ ok b → codec.decode b ≡ ok x)
      → answer codec key hash fn none s ≡ (ok a, s')
      → Has key hash a s'
  fresh-Has key hash fn s round h =
      let (x, s1, e1, k1) = bind-ok fn _ s h in
      let (b, s2, e2, k2) = bind-ok (lift (codec.encode x)) _ s1 k1 in
      stored-Has key hash b x s2 (round x b (ground arith)) k2

  answer_once-Has :
      (key hash : String) (fn : Tx T Answer) (s : Store T) {a : Answer} {s' : Store T}
      → ((x : Answer) (b : String) → codec.encode x ≡ ok b → codec.decode b ≡ ok x)
      → answer_once codec key hash fn s ≡ (ok a, s')
      → Has key hash a s'
  unfolding answer_once
  answer_once-Has key hash fn s {a} {s'} round h = go (saved_at key s.commands) refl h
    where
      locked : Store T
      locked = record s { locks = (1, key) ∷ s.locks }

      go :
          (o : Option Saved)
          → saved_at key s.commands ≡ o
          → answer codec key hash fn o locked ≡ (ok a, s')
          → Has key hash a s'
      go none q h = fresh-Has key hash fn locked round h
      go (some row) q h = found-Has key hash fn row locked q h

  -- An answer that the store has is given again, and the store is left as it is.
  answer_once-again :
      (key hash : String) (fn : Tx T Answer) (s : Store T) {a : Answer}
      → Has key hash a s
      → answer_once codec key hash fn s ≡ (ok a, record s { locks = (1, key) ∷ s.locks })
  unfolding answer_once
  answer_once-again key hash fn s has =
      rw has.found (rw (has.same, eq_refl hash) (rw has.reads refl))

  -- The hash of the request of a call that succeeded, and what the call has left.
  abbrev Settled : String → Request → Answer → Store T → Type 0
  Settled key request a s =
      (hash : String) × (is_bad_key key ≡ false)
      × (codec.fingerprint request ≡ ok hash)
      × Has key hash a s

  hashed-Has :
      (key : String) (fn : Tx T Answer) (r : Result String) (s : Store T) {a : Answer}
      {s' : Store T}
      → ((x : Answer) (b : String) → codec.encode x ≡ ok b → codec.decode b ≡ ok x)
      → hashed key fn r s ≡ (ok a, s')
      → (hash : String) × (r ≡ ok hash) × Has key hash a s'
  hashed-Has key fn (ok hash) s {a} {s'} round h =
      let (s1, e, q) = transaction-ok (answer_once codec key hash fn) s h in
      (hash, refl, unlocked (answer_once-Has key hash fn _ round e) q)
    where
      unlocked :
          {s1 : Store T}
          → Has key hash a s1
          → s' ≡ record s1 { locks = s.locks }
          → Has key hash a s'
      unlocked has q = record {
        row = has.row;
        found = ground (arith, has.found);
        same = has.same;
        reads = has.reads;
      }
  hashed-Has key fn (err x) s round h = cc

  gated-ok :
      (b : Bool) (x : Error) (k : Tx T Answer) (s : Store T) {a : Answer} {s' : Store T}
      → (throw_if b x >> k) s ≡ (ok a, s')
      → (b ≡ false) × (k s ≡ (ok a, s'))
  gated-ok true x k s h = cc
  gated-ok false x k s h = (refl, h)

  command-Settled :
      (key : String) (request : Request) (fn : Tx T Answer) (s : Store T) {a : Answer}
      {s' : Store T}
      → ((x : Answer) (b : String) → codec.encode x ≡ ok b → codec.decode b ≡ ok x)
      → command codec key request fn s ≡ (ok a, s')
      → Settled key request a s'
  unfolding command
  command-Settled key request fn s round h =
      let (good, k) = gated-ok (is_bad_key key) _ (hashed key fn (codec.fingerprint request)) s h in
      let (hash, q, has) = hashed-Has key fn (codec.fingerprint request) s round k in
      (hash, good, q, has)

  -- Once a call has succeeded, the same request under the same key has the same answer, changes
  -- nothing, and does not run its function, provided that an answer's JSON reads back as the answer.
  pub command_again :
      (key : String) (request : Request) (fn fn' : Tx T Answer) (s : Store T) {a : Answer}
      {s' : Store T}
      → ((x : Answer) (b : String) → codec.encode x ≡ ok b → codec.decode b ≡ ok x)
      → command codec key request fn s ≡ (ok a, s')
      → command codec key request fn' s' ≡ (ok a, s')
  unfolding command transaction
  command_again key request fn fn' s {a} {s'} round h =
      let (hash, good, q, has) = command-Settled key request fn s round h in
      rw (good, q)
        (rw (answer_once-again key hash fn' (record s' { locks = [] }) (relocked has)) refl)
    where
      relocked : {hash : String} → Has key hash a s' → Has key hash a (record s' { locks = [] })
      relocked has = record { row = has.row; found = has.found; same = has.same; reads = has.reads }

  answer_once-conflict :
      (key hash hash' : String) (fn : Tx T Answer) (s : Store T) {a : Answer}
      → Has key hash a s
      → hash' ≢ hash
      → (answer_once codec key hash' fn s).0
        ≡ err (fail "IDEMPOTENCY_CONFLICT" "Key reused with different request")
  unfolding answer_once
  answer_once-conflict key hash hash' fn s has differs =
      rw has.found (ground (arith, has.same, eq_iff has.row.fingerprint hash'))

  transaction-conflict :
      (m : Tx T Answer) (s : Store T) (e : Error)
      → (m (record s { locks = [] })).0 ≡ err e
      → transaction m s ≡ (err e, s)
  unfolding transaction
  transaction-conflict m s e h = go (m (record s { locks = [] })) h
    where
      go : (r : Result Answer × Store T) → r.0 ≡ err e → end_of s r ≡ (err e, s)
      go (ok a, s1) h = cc
      go (err x, s1) h = ground (arith, h)

  -- Once a call has succeeded, another request under the same key, one with another hash, is
  -- refused with a conflict, and changes nothing.
  pub command_conflict :
      (key : String) (request request' : Request) (fn fn' : Tx T Answer) (s : Store T)
      {hash' : String} {a : Answer} {s' : Store T}
      → ((x : Answer) (b : String) → codec.encode x ≡ ok b → codec.decode b ≡ ok x)
      → command codec key request fn s ≡ (ok a, s')
      → codec.fingerprint request' ≡ ok hash'
      → codec.fingerprint request ≢ ok hash'
      → command codec key request' fn' s'
        ≡ (err (fail "IDEMPOTENCY_CONFLICT" "Key reused with different request"), s')
  unfolding command
  command_conflict key request request' fn fn' s {hash'} {a} {s'} round h q' differs =
      let (hash, good, q, has) = command-Settled key request fn s round h in
      rw (good, q')
        (transaction-conflict (answer_once codec key hash' fn') s' _ (
          answer_once-conflict key hash hash' fn' (record s' { locks = [] })
            (record { row = has.row; found = has.found; same = has.same; reads = has.reads })
            (λ e. differs (ground (arith, q, e)))))
