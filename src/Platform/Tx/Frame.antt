-- ===== src/Platform/Tx/Frame.antt =====
-- Actions that leave a part of the store alone, built up by the steps of an action.
use logicore_wms.Base.{
  String, Bool, true, false, Option, none, some, ◌≡◌, sym, ◌∙◌, ap, if◌then◌else◌,
}
use logicore_wms.Platform.Types.{Context, Error, Result, ok}
use logicore_wms.Platform.Tx.{
  Store, Tx, ◌>>=◌, ◌>>◌, lift, pure, throw, throw_if, or_throw, gets, cast, bind-ok,
}

module _ {T V : Type 0} (view : Store T → V) where
  -- Where `m` succeeds, the view is what it was.
  pub record Frames {A : Type 0} (m : Tx T A) : Type 0 where
    pub apply : (s : Store T) (a : A) (s' : Store T) → m s ≡ (ok a, s') → view s' ≡ view s

module _ {T V : Type 0} {view : Store T → V} where
  pub Frames-bind :
      {A B : Type 0} {m : Tx T A} {f : A → Tx T B}
      → Frames view m
      → ((a : A) → Frames view (f a))
      → Frames view (m >>= f)
  Frames-bind {m = m} {f = f} h k = record {
    apply = λ s b s' e.
        let (a, s1, e1, e2) = bind-ok m f s e in (k a).apply s1 b s' e2 ∙ h.apply s a s1 e1;
  }

  pub Frames-then :
      {A B : Type 0} {m : Tx T A} {n : Tx T B}
      → Frames view m
      → Frames view n
      → Frames view (m >> n)
  Frames-then h k = Frames-bind h (λ _. k)

  pub Frames-if :
      {A : Type 0} (b : Bool) {m n : Tx T A}
      → Frames view m
      → Frames view n
      → Frames view (if b then m else n)
  Frames-if true h k = h
  Frames-if false h k = k

  pub Frames-pure : {A : Type 0} (a : A) → Frames view (pure a)
  Frames-pure a = record { apply = λ s a s' e. ap (λ r. view r.1) (sym e) }

  pub Frames-lift : {A : Type 0} (r : Result A) → Frames view (lift r)
  Frames-lift r = record { apply = λ s a s' e. ap (λ r. view r.1) (sym e) }

  pub Frames-throw : {A : Type 0} (x : Error) → Frames view {A = A} (throw x)
  Frames-throw x = record { apply = λ s a s' e. cc }

  pub Frames-throw_if : (b : Bool) (x : Error) → Frames view (throw_if b x)
  Frames-throw_if b x = record { apply = λ s a s' e. ap (λ r. view r.1) (sym e) }

  pub Frames-gets : {A : Type 0} (f : T → A) → Frames view (gets f)
  Frames-gets f = record { apply = λ s a s' e. ap (λ r. view r.1) (sym e) }

  pub Frames-or_throw : {A : Type 0} (o : Option A) (x : Error) → Frames view (or_throw o x)
  Frames-or_throw (some a) x = Frames-pure a
  Frames-or_throw none x = Frames-throw x

  pub Frames-cast : (c : Context) (v : String) → Frames view (cast c v)
  Frames-cast c v = Frames-or_throw (c.cast v) _

  -- What depends on no more than the view is left alone too.
  pub Frames-part :
      {A W : Type 0} {m : Tx T A} (f : V → W) → Frames view m → Frames (λ s. f (view s)) m
  Frames-part f h = record { apply = λ s a s' e. ap f (h.apply s a s' e) }

pub ruleset frames = (
  Frames-then, Frames-bind, Frames-if, Frames-pure, Frames-lift, Frames-throw_if, Frames-gets,
  Frames-cast, Frames-or_throw, Frames-throw,
)
