-- ===== src/Platform/Outbox.antt =====
-- `Outbox` of libs/platform/messaging.go: one round of the publisher. The log is the topic
-- `wms.events`; a write to it is acknowledged, or refused, or done with the acknowledgement lost.
pub mod Laws
pub mod Progress
use logicore_wms.Base.{
  ℕ, String, Bool, true, false, not, List, [], ◌∷◌, ◌++◌, ◌+◌, take, keep, map, if◌then◌else◌,
  str_eq,
}
use logicore_wms.Platform.Tx.{Store, Pending, Event}

pub record Message : Type 0 where
  pub key : String
  pub value : Event

pub data Write : Type 0 where
  acked refused unacknowledged : Write

abbrev pub message : Pending → Message
message p = record { key = p.aggregate_id; value = p.payload }

abbrev pub limit : ℕ
limit = 50

-- `… where published_at is null order by sequence`
unfoldable pub unpublished : List Pending → List Pending
unpublished = keep λ p. not p.published

-- `update outbox_events set published_at=now() where id=$1`
unfoldable pub mark_published : String → List Pending → List Pending
mark_published id [] = []
mark_published id (p ∷ rows) =
    (if str_eq p.id id then record p { published = true } else p) ∷ mark_published id rows

-- What the loop over the batch leaves: whether it reached the end, the rows, and the log.
pub record Round : Type 0 where
  pub done : Bool
  pub rows : List Pending
  pub log : List Message

-- The n-th write of the batch ends as `writes n` says.
unfoldable pub deliver : (ℕ → Write) → ℕ → List Pending → List Pending → List Message → Round
deliver writes n [] rows log = record { done = true; rows = rows; log = log }
deliver writes n (p ∷ batch) rows log =
    let rest = deliver writes (n + 1) batch (mark_published p.id rows) (log ++ (message p ∷ [])) in
    elim (writes n) [
      | acked ↦ rest
      | refused ↦ record { done = false; rows = rows; log = log }
      | unacknowledged ↦ record { done = false; rows = rows; log = log ++ (message p ∷ []) }
    ]

-- A tick: the rows are marked if the whole batch was written, and the log keeps what it got.
unfoldable pub publish :
    {T : Type 0} → (ℕ → Write) → Store T → List Message → Store T × List Message
unfolding deliver
publish writes s log =
    let r = deliver writes 0 (take limit (unpublished s.outbox)) s.outbox log in
    (if r.done then record s { outbox = r.rows } else s, r.log)
