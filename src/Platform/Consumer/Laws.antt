-- ===== src/Platform/Consumer/Laws.antt =====
-- When the offset of a message is committed.
use logicore_wms.Base.{
  ℕ, zero, suc, Bool, true, false, List, [], ◌∷◌, ◌++◌, ◌+◌, ◌≤◌, ◌<◌, ◌≡◌, ◌≢◌, refl, ◌⊎◌, inl,
  inr, leb, leb→le, any, ℕ_discrete, arith, if◌then◌else◌, Bool-cases,
}
use mathlib.Core.List.{Memᴰ}
use logicore_wms.Platform.Consumer.{
  World, after_failure, attempt, prefix, Action, processed, failed, dead_lettered,
  dead_letter_failed, committed, Exit, clean, faulty, returned, running, start, attempts, finish,
  consume,
}

-- The message was processed, or it stands in the dead-letter topic, after five failures at least.
abbrev pub IsHandled : World → List Action → Type 0
IsHandled w l =
    ((n : ℕ) × Memᴰ (processed n) l × (w.processes n ≡ true))
    ⊎ ((n : ℕ) × Memᴰ (dead_lettered n) l × (4 ≤ n) × (w.dead_letters n ≡ true))

IsHandled-cons : (w : World) (a : Action) (l : List Action) → IsHandled w l → IsHandled w (a ∷ l)
IsHandled-cons w a l (inl (n, m, p)) = inl (n, Memᴰ.tail m, p)
IsHandled-cons w a l (inr (n, m, k, p)) = inr (n, Memᴰ.tail m, k, p)

IsHandled-append : (w : World) (l more : List Action) → IsHandled w l → IsHandled w (l ++ more)
IsHandled-append w l more h = elim h [
  | inl (n, m, p) ↦ inl (n, left l m, p)
  | inr (n, m, k, p) ↦ inr (n, left l m, k, p)
]
  where
    left : {a : Action} (l : List Action) → Memᴰ a l → Memᴰ a (l ++ more)
    left [] m = elim m [ ]
    left (x ∷ l) (Memᴰ.head e) = Memᴰ.head e
    left (x ∷ l) (Memᴰ.tail m) = Memᴰ.tail (left l m)

abbrev pub is_commit : Action → Bool
is_commit committed = true
is_commit _ = false

-- If the loop is left cleanly, the message was handled; the loop itself commits nothing.
abbrev Justified : World → Exit × List Action → Type 0
Justified w (clean, l) = IsHandled w l × (any is_commit l ≡ false)
Justified w (_, l) = Unit × (any is_commit l ≡ false)

prefix-Justified :
    (w : World) (a : Action) (r : Exit × List Action)
    → is_commit a ≡ false
    → Justified w r
    → Justified w (prefix a r)
prefix-Justified w a (clean, l) n h = (IsHandled-cons w a l h.0, rw n h.1)
prefix-Justified w a (faulty, l) n h = (tt, rw n h.1)
prefix-Justified w a (returned, l) n h = (tt, rw n h.1)
prefix-Justified w a (running, l) n h = (tt, rw n h.1)

after_failure-Justified :
    (w : World) (n : ℕ) (r : Exit × List Action) → Justified w r → Justified w (after_failure w n r)
after_failure-Justified w n r h = elim (Bool-cases (leb 4 n)) [
  | inl late ↦ elim (Bool-cases (w.dead_letters n)) [
    | inl sent ↦ rw (late, sent) (inr (n, Memᴰ.head refl, leb→le 4 n late, sent), refl)
    | inr lost ↦ rw (late, lost) (prefix-Justified w (dead_letter_failed n) r refl h)
  ]
  | inr early ↦ rw early h
]

attempt-Justified :
    (w : World) (n : ℕ) (e : Exit) (r : Exit × List Action)
    → (w.over n ≡ true → e ≢ clean)
    → Justified w r
    → Justified w (attempt w n e r)
attempt-Justified w n e r live h = elim (Bool-cases (w.over n)) [
  | inl over ↦ rw over (dead e (live over))
  | inr on ↦ elim (Bool-cases w.parsed) [
    | inl good ↦ elim (Bool-cases (w.processes n)) [
      | inl p ↦ rw (on, good, p) (inl (n, Memᴰ.head refl, p), refl)
      | inr p ↦
          rw (on, good, p) (prefix-Justified w (failed n) _ refl (after_failure-Justified w n r h))
    ]
    | inr bad ↦ rw (on, bad) (after_failure-Justified w n r h)
  ]
]
  where
    dead : (e : Exit) → e ≢ clean → Justified w (e, [])
    dead clean ne = absurd (ne refl)
    dead faulty ne = (tt, refl)
    dead returned ne = (tt, refl)
    dead running ne = (tt, refl)

attempts-Justified :
    (w : World) (fuel n : ℕ) (e : Exit)
    → (w.over n ≡ true → e ≢ clean)
    → Justified w (attempts w fuel n e)
unfolding attempts
attempts-Justified w zero n e live = (tt, refl)
attempts-Justified w (suc fuel) n e live =
    attempt-Justified w n e _ live
      (waiting (w.over_waiting n) _ (attempts-Justified w fuel (suc n) faulty (λ h ne. cc)))
  where
    waiting :
        (b : Bool) (r : Exit × List Action)
        → Justified w r
        → Justified w (if b then (returned, []) else r)
    waiting true r h = (tt, refl)
    waiting false r h = h

-- If the context is not over when a message has just been fetched, then its offset is committed
-- only after the message was processed, or was written to the dead-letter topic at the fifth
-- attempt or later.
pub committed-IsHandled :
    (w : World) (fuel : ℕ)
    → w.over 0 ≡ false
    → any is_commit (consume w fuel) ≡ true
    → IsHandled w (consume w fuel)
unfolding consume
committed-IsHandled w fuel on =
    go (attempts w fuel 0 (start w)) (attempts-Justified w fuel 0 (start w) (λ h. cc))
  where
    go :
        (r : Exit × List Action)
        → Justified w r
        → any is_commit (finish w.commits r) ≡ true
        → IsHandled w (finish w.commits r)
    go (clean, l) h c = IsHandled-append w l _ h.0
    go (faulty, l) h c = cc
    go (returned, l) h c = cc
    go (running, l) h c = cc

after_failure-ne-running :
    (w : World) (n : ℕ) (r : Exit × List Action) → r.0 ≢ running → (after_failure w n r).0 ≢ running
after_failure-ne-running w n r h = ground (arith, h)

attempt-ne-running :
    (w : World) (n : ℕ) (e : Exit) (r : Exit × List Action)
    → e ≢ running
    → r.0 ≢ running
    → (attempt w n e r).0 ≢ running
attempt-ne-running w n e r he h = ground (arith, h, he)

attempt_last :
    (w : World) (n : ℕ) (e : Exit) (r : Exit × List Action)
    → e ≢ running
    → 4 ≤ n
    → w.dead_letters n ≡ true
    → (attempt w n e r).0 ≢ running
attempt_last w n e r he h d = ground (arith, he)

-- The loop over the attempts ends: if the dead-letter topic accepts the message at attempt `k`, the
-- fifth or a later one, it makes no more than `k + 1` attempts.
pub attempts-ne-running :
    (w : World) (fuel n k : ℕ) (e : Exit)
    → e ≢ running
    → 4 ≤ k
    → w.dead_letters k ≡ true
    → n ≤ k
    → k < fuel + n
    → (attempts w fuel n e).0 ≢ running
unfolding attempts
attempts-ne-running w zero n k e he h d le lt = absurd (omega arith)
attempts-ne-running w (suc fuel) n k e he h d le lt = elim (ℕ_discrete n k) [
  | yes same ↦ attempt_last w n e _ he (omega arith) (rw same d)
  | no differs ↦ attempt-ne-running w n e _ he (
      waiting (w.over_waiting n) _
        (attempts-ne-running w fuel (suc n) k faulty (λ q. cc) h d (omega arith) (omega arith)))
]
  where
    waiting :
        (b : Bool) (r : Exit × List Action)
        → r.0 ≢ running
        → (if b then (returned, []) else r).0 ≢ running
    waiting true r h q = cc
    waiting false r h q = h q
