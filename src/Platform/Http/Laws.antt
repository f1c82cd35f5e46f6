-- ===== src/Platform/Http/Laws.antt =====
-- What every answer of `Wrap` keeps to.
use Prim.Native.String.{len}
use logicore_wms.Base.{String, ◌≡◌, ◌≤◌, ◌<◌, arith}
use logicore_wms.Platform.Types.{internal, Result, err}
use logicore_wms.Platform.Http.{correlation_id, wrap}

correlation_id-bounds :
    (header fresh : String)
    → 0 < len fresh
    → len fresh ≤ 80
    → (0 < len (correlation_id header fresh)) × (len (correlation_id header fresh) ≤ 80)
unfolding correlation_id
correlation_id-bounds header fresh some_bytes short = ground arith

module _ {A : Type 0} (header fresh : String) where
  wrap-correlation :
      (fn : String → Result A) → (wrap header fresh fn).correlation ≡ correlation_id header fresh
  unfolding wrap
  wrap-correlation fn = ground arith

  -- Whatever the endpoint does, the answer carries a correlation id of 1 to 80 bytes, provided that
  -- a fresh one is of that length.
  pub wrap-bounds :
      (fn : String → Result A)
      → 0 < len fresh
      → len fresh ≤ 80
      → (0 < len (wrap header fresh fn).correlation) × (len (wrap header fresh fn).correlation ≤ 80)
  wrap-bounds fn some_bytes short =
      rw (wrap-correlation fn) (correlation_id-bounds header fresh some_bytes short)

  -- Two endpoints that fail with errors that are no faults are answered alike: the text of such an
  -- error does not reach the caller.
  pub wrap_hides :
      (fn fn' : String → Result A) {m m' : String}
      → fn (correlation_id header fresh) ≡ err (internal m)
      → fn' (correlation_id header fresh) ≡ err (internal m')
      → wrap header fresh fn ≡ wrap header fresh fn'
  unfolding wrap correlation_id
  wrap_hides fn fn' e e' = ground (arith, e, e')
