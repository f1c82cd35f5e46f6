-- ===== src/Platform/Tx/Steps.antt =====
-- Inversion of an action that succeeded, by its first step: what is to be shown, `G`, is shown from
-- what the step found and from the rest of the action.
use logicore_wms.Base.{
  String, Bool, true, false, Option, none, some, ◌≡◌, refl, arith, if◌then◌else◌,
}
use logicore_wms.Platform.Types.{Context, Error, Result, ok, err}
use logicore_wms.Platform.Json.{Payload}
use logicore_wms.Platform.Tx.{
  Store, Tx, EventType, ◌>>=◌, ◌>>◌, lift, pure, throw_if, or_throw, execute, lock, emit, bind-ok,
}

module _ {T B G : Type 0} (s : Store T) {b : B} {s' : Store T} where
  pub lift-then :
      {A : Type 0} (r : Result A) (f : A → Tx T B)
      → (lift r >>= f) s ≡ (ok b, s')
      → ((a : A) → r ≡ ok a → f a s ≡ (ok b, s') → G)
      → G
  lift-then (ok a) f h k = k a refl h
  lift-then (err e) f h k = absurd (cc)

  pub or_throw-then :
      {A : Type 0} (o : Option A) (e : Error) (f : A → Tx T B)
      → (or_throw o e >>= f) s ≡ (ok b, s')
      → ((a : A) → o ≡ some a → f a s ≡ (ok b, s') → G)
      → G
  or_throw-then (some a) e f h k = k a refl h
  or_throw-then none e f h k = absurd (cc)

  pub throw_if-then :
      (test : Bool) (e : Error) (m : Tx T B)
      → (throw_if test e >> m) s ≡ (ok b, s')
      → (test ≡ false → m s ≡ (ok b, s') → G)
      → G
  throw_if-then false e m h k = k refl h
  throw_if-then true e m h k = absurd (cc)

  pub if-then :
      (test : Bool) (m n : Tx T B)
      → (if test then m else n) s ≡ (ok b, s')
      → (test ≡ true → m s ≡ (ok b, s') → G)
      → (test ≡ false → n s ≡ (ok b, s') → G)
      → G
  if-then true m n h k l = k refl h
  if-then false m n h k l = l refl h

  executed-then :
      (f : T → Option T) (m : Tx T B) (o : Option T)
      → f s.tables ≡ o
      → (execute (λ _. o) >> m) s ≡ (ok b, s')
      → ((t : T) → f s.tables ≡ some t → m (record s { tables = t }) ≡ (ok b, s') → G)
      → G
  executed-then f m (some t) e h k = k t e h
  executed-then f m none e h k = absurd (cc)

  pub execute-then :
      (f : T → Option T) (m : Tx T B)
      → (execute f >> m) s ≡ (ok b, s')
      → ((t : T) → f s.tables ≡ some t → m (record s { tables = t }) ≡ (ok b, s') → G)
      → G
  execute-then f m h k = executed-then f m (f s.tables) refl h k

  pub bind-then :
      {A : Type 0} (m : Tx T A) (f : A → Tx T B)
      → (m >>= f) s ≡ (ok b, s')
      → ((a : A) (s1 : Store T) → m s ≡ (ok a, s1) → f a s1 ≡ (ok b, s') → G)
      → G
  bind-then m f h k = let (a, s1, e, h') = bind-ok m f s h in k a s1 e h'

module _ {T : Type 0} (s : Store T) where
  -- Nothing is done.
  pub pure-tables : {A : Type 0} (a : A) {b : A} {s' : Store T} → pure a s ≡ (ok b, s') → s' ≡ s
  pure-tables a h = ground arith

  pub emit-tables :
      (c : Context) (kind : EventType) (p : Payload) {b : Unit {0}} {s' : Store T}
      → emit c kind p s ≡ (ok b, s')
      → s'.tables ≡ s.tables
  unfolding emit
  emit-tables c kind p h = ground arith

  pub lock-tables :
      (c : Context) (w : String) {b : Unit {0}} {s' : Store T}
      → lock c w s ≡ (ok b, s')
      → s'.tables ≡ s.tables
  unfolding lock
  lock-tables c w h = ground arith

  pub or_throw-end :
      {A : Type 0} (o : Option A) (e : Error) {a : A} {s' : Store T}
      → or_throw o e s ≡ (ok a, s')
      → (o ≡ some a) × (s' ≡ s)
  or_throw-end o e h = ground arith

  -- The end of an action: a statement and its event.
  pub emitted-tables :
      {A : Type 0} (c : Context) (kind : EventType) (p : Payload) (a : A) {b : A} {s' : Store T}
      → (emit c kind p >> pure a) s ≡ (ok b, s')
      → (s'.tables ≡ s.tables) × (b ≡ a)
  unfolding emit
  emitted-tables c kind p a h = ground arith

  -- The last step of an action.
  pub throw_if-end :
      (test : Bool) (e : Error) {b : Unit {0}} {s' : Store T}
      → throw_if test e s ≡ (ok b, s')
      → (test ≡ false) × (s' ≡ s)
  throw_if-end test e h = ground arith

  executed-end :
      (o : Option T) {b : Unit {0}} {s' : Store T}
      → execute (λ _. o) s ≡ (ok b, s')
      → (t : T) × (o ≡ some t) × (s'.tables ≡ t)
  executed-end (some t) h = (t, refl, ground arith)
  executed-end none h = cc

  pub execute-end :
      (f : T → Option T) {b : Unit {0}} {s' : Store T}
      → execute f s ≡ (ok b, s')
      → (t : T) × (f s.tables ≡ some t) × (s'.tables ≡ t)
  execute-end f h = executed-end (f s.tables) h
