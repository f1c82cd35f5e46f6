-- ===== src/Platform/Tx/Progress.antt =====
-- Actions that succeed, by their steps.
use logicore_wms.Base.{Option, some, [], ◌≡◌, refl, ap, ◌∙◌}
use logicore_wms.Platform.Types.{ok}
use logicore_wms.Platform.Tx.{Store, Tx, ◌>>=◌, continue, execute, transaction, end_of}

module _ {T : Type 0} where
  -- `m` succeeds at `s`, and what it leaves is as `P` says.
  abbrev pub Passes : {A : Type 0} → (Store T → Type 0) → Tx T A → Store T → Type 0
  Passes {A} P m s = (a : A) × (s' : Store T) × (m s ≡ (ok a, s')) × P s'

  pub bind-Passes :
      {A B : Type 0} {P : Store T → Type 0} (m : Tx T A) (f : A → Tx T B) (s : Store T) {a : A}
      {s1 : Store T}
      → m s ≡ (ok a, s1)
      → Passes P (f a) s1
      → Passes P (m >>= f) s
  bind-Passes m f s e (b, s', h, p) = (b, s', ap (λ r. continue r f) e ∙ h, p)

  pub execute-run :
      (f : T → Option T) (s : Store T) {t : T}
      → f s.tables ≡ some t
      → execute f s ≡ (ok tt, record s { tables = t })
  execute-run f s e = rw (execute, e) refl

  -- A transaction whose body succeeds is committed.
  pub transaction-Passes :
      {A : Type 0} (P : T → Type 0) (m : Tx T A) (s : Store T)
      → Passes (λ s. P s.tables) m (record s { locks = [] })
      → Passes (λ s. P s.tables) (transaction m) s
  unfolding transaction
  transaction-Passes P m s (a, s', e, p) = (a, record s' { locks = s.locks }, ap (end_of s) e, p)
