-- ===== src/Platform/Consumer.antt =====
-- `Consume` of libs/platform/messaging.go: what becomes of one message that was fetched.
pub mod Laws
use logicore_wms.Base.{ℕ, zero, suc, Bool, true, false, List, [], ◌∷◌, ◌++◌, leb, if◌then◌else◌}

-- What the environment does, by the number of the attempt: whether the context is over when the
-- loop looks at it and when it waits, how `Process` ends, and whether the write to the dead-letter
-- topic goes through; and whether the commit does, for which the context may be over too. `parsed` says that the envelope was read, has version 1 and a valid id.
pub record World : Type 0 where
  pub parsed : Bool
  pub over : ℕ → Bool
  pub over_waiting : ℕ → Bool
  pub processes : ℕ → Bool
  pub dead_letters : ℕ → Bool
  pub commits : Bool

pub data Action : Type 0 where
  processed failed dead_lettered dead_letter_failed : ℕ → Action
  committed commit_failed : Action

-- How the loop over the attempts is left: with `err == nil`, with an error, by the `return`, or not
-- within the fuel.
pub data Exit : Type 0 where
  clean faulty returned running : Exit

-- The `err` that the loop starts with.
abbrev pub start : World → Exit
start w = if w.parsed then clean else faulty

abbrev pub prefix : Action → Exit × List Action → Exit × List Action
prefix a (e, l) = (e, a ∷ l)

-- After a failure: from the fifth on the message goes to the dead-letter topic.
abbrev pub after_failure : World → ℕ → Exit × List Action → Exit × List Action
after_failure w n again =
    if leb 4 n
    then if w.dead_letters n
      then (clean, dead_lettered n ∷ [])
      else prefix (dead_letter_failed n) again
    else again

-- Attempt `n`, where `e` tells whether `err` is nil, and `again` is what the later attempts do.
abbrev pub attempt : World → ℕ → Exit → Exit × List Action → Exit × List Action
attempt w n e again =
    if w.over n
    then (e, [])
    else if w.parsed
    then if w.processes n
      then (clean, processed n ∷ [])
      else prefix (failed n) (after_failure w n again)
    else after_failure w n again

-- The loop from attempt `n` on.
unfoldable pub attempts : World → ℕ → ℕ → Exit → Exit × List Action
attempts w zero n e = (running, [])
attempts w (suc fuel) n e =
    let rest = attempts w fuel (suc n) faulty in
    attempt w n e (if w.over_waiting n then (returned, []) else rest)

abbrev pub finish : Bool → Exit × List Action → List Action
finish commits (clean, l) = l ++ ((if commits then committed else commit_failed) ∷ [])
finish commits (_, l) = l

-- The offset is committed when the loop is left with `err == nil`; an error of that is only logged.
unfoldable pub consume : World → ℕ → List Action
unfolding attempts
consume w fuel = finish w.commits (attempts w fuel 0 (start w))
