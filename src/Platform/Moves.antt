-- ===== src/Platform/Moves.antt =====
-- Transactions, by a reflexive relation of the tables that their body finds with those that it
-- leaves: what is committed is related to what was there, and what is rolled back is what was there.
use logicore_wms.Base.{
  not, String, Bool, true, false, Option, none, some, [], ℕ, ◌==◌, ◌≡◌, refl, sym, ap, subst, arith,
  str_eq, if◌then◌else◌,
}
use logicore_wms.Platform.Types.{Context, Result, ok, err, invalid}
use logicore_wms.Platform.Tx.{
  Store, Saved, Tx, Event, throw_if, pure, lift, transaction, transaction-ok, transaction-err, ◌>>◌,
  ◌>>=◌,
}
use logicore_wms.Platform.Tx.Steps.{lift-then, throw_if-then, bind-then, if-then, pure-tables}
use logicore_wms.Platform.Inbox.{Handler, mark, mark_row, process}
use logicore_wms.Platform.Commands.{Codec, saved_at, save, answer, answer_once, is_bad_key, command}

module _ {T : Type 0} (R : T → T → Type 0) where
  -- Where `m` succeeds, it leaves tables that are related to those that it found.
  pub record Moves {A : Type 0} (m : Tx T A) : Type 0 where
    pub apply : (s : Store T) (a : A) (s' : Store T) → m s ≡ (ok a, s') → R s.tables s'.tables

mark-tables :
    {T : Type 0} (c : Context) (o : Option ℕ) (s : Store T) {n : ℕ} {s' : Store T}
    → mark_row c o s ≡ (ok n, s')
    → s'.tables ≡ s.tables
mark-tables c o s h = ground (arith)

save-tables :
    {T Request Answer : Type 0} (codec : Codec Request Answer) (key hash body : String)
    (s : Store T) {a : Unit {0}} {s' : Store T}
    → save codec key hash body s ≡ (ok a, s')
    → s'.tables ≡ s.tables
save-tables codec key hash body s h = ground arith

module _ {T : Type 0} (R : T → T → Type 0) (stay : (t : T) → R t t) where
  stays : {s s' : Store T} → s' ≡ s → R s.tables s'.tables
  stays {s} e = subst (λ (s1 : Store T). R s.tables s1.tables) (sym e) (stay s.tables)

  pub Moves-transaction :
      {A : Type 0} {m : Tx T A} → Moves R m → (s : Store T) → R s.tables (transaction m s).1.tables
  Moves-transaction {A} {m} moves s = go (transaction m s) refl
    where
      go : (r : Result A × Store T) → transaction m s ≡ r → R s.tables r.1.tables
      go (ok a, s') e =
          let (s1, e1, q) = transaction-ok m s e in
          subst (λ (s2 : Store T). R s.tables s2.tables) (sym q)
            (moves.apply (record s { locks = [] }) a s1 e1)
      go (err x, s') e = stays (transaction-err m s e)

  pub Moves-process :
      (h : Handler T) (c : Context) (e : Event)
      → Moves R (h c e)
      → (s : Store T) → R s.tables (process c h e s).1.tables
  unfolding process mark
  Moves-process h c e moves s = Moves-transaction body s
    where
      body : Moves R (mark c e.id >>= λ affected. if affected == 0 then pure tt else h c e)
      body = record {
        apply = λ s a s' run. bind-then s (mark c e.id) _ run λ n s1 h1 run.
            subst (λ t. R t s'.tables) (mark-tables c (c.cast e.id) s h1)
              (if-then s1 (n == 0) (pure tt) (h c e) run (λ _ run. stays (pure-tables s1 tt run))
                (λ _ run. moves.apply s1 a s' run));
      }

  module _ {Request Answer : Type 0} (codec : Codec Request Answer) where
    answer-Moves :
        (key hash : String) (fn : Tx T Answer) (o : Option Saved)
        → Moves R fn
        → Moves R (answer codec key hash fn o)
    answer-Moves key hash fn none moves = record {
      apply = λ s a s' h. bind-then s fn _ h λ x s1 h1 h.
          lift-then s1 (codec.encode x) _ h λ body _ h.
            bind-then s1 (save codec key hash body) _ h λ _ s2 h2 h.
              subst (λ (s' : Store T). R s.tables s'.tables) (sym (pure-tables s2 x h))
                (subst (R s.tables) (sym (save-tables codec key hash body s1 h2))
                  (moves.apply s x s1 h1));
    }
    answer-Moves key hash fn (some row) moves = record {
      apply = λ s a s' h.
          throw_if-then s (not (str_eq row.fingerprint hash)) _ _ h
            λ _ h. stays (sym (ap (λ r. r.1) h));
    }

    -- An idempotent request, however it ends.
    pub Moves-command :
        (key : String) (request : Request) (fn : Tx T Answer)
        → Moves R fn
        → (s : Store T) → R s.tables (command codec key request fn s).1.tables
    unfolding command answer_once
    Moves-command key request fn moves s = go (is_bad_key key) (codec.fingerprint request)
      where
        once : (hash : String) → Moves R (answer_once codec key hash fn)
        once hash = record {
          apply =
              λ s a s' h. (answer-Moves key hash fn (saved_at key s.commands) moves).apply _ a s' h;
        }

        go :
            (b : Bool) (r : Result String)
            → R s.tables
                ((throw_if b (invalid "Idempotency-Key is required (1-128 characters)")
                    >> (lift r >>= λ hash. transaction (answer_once codec key hash fn)))
                  s).1.tables
        go true r = stay s.tables
        go false (err e) = stay s.tables
        go false (ok hash) = Moves-transaction (once hash) s
