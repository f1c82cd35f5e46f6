-- ===== src/Platform/Outbox/Laws.antt =====
-- Delivery by the outbox: at least once, in order, and all of it while the broker answers.
use logicore_wms.Base.{
  ℕ, String, Bool, true, false, List, [], ◌∷◌, ◌++◌, ◌+◌, ◌≡◌, refl, ◌⊎◌, inl, inr, All, map,
  if◌then◌else◌, arith, append_assoc, append-nil, sym, ap, ◌∙◌, str_eq,
}
use mathlib.Core.List.{Memᴰ}
use logicore_wms.Platform.Tx.{Pending}
use logicore_wms.Platform.Outbox.{
  Message, Write, acked, refused, unacknowledged, message, mark_published, Round, deliver,
}

-- The ids of the rows differ: they are the primary key.
abbrev pub IsDistinct : List Pending → Type 0
IsDistinct [] = Unit
IsDistinct (p ∷ rows) = All (λ r. str_eq r.id p.id ≡ false) rows × IsDistinct rows

-- A row that is marked has its message in the log.
abbrev pub IsSent : List Message → Pending → Type 0
IsSent log p = (p.published ≡ false) ⊎ Memᴰ (message p) log

abbrev pub IsDelivered : List Pending → List Message → Type 0
IsDelivered rows log = All (IsSent log) rows

-- An initial part of a list.
abbrev pub IsPrefix : {A : Type 0} → List A → List A → Type 0
IsPrefix [] ys = Unit
IsPrefix (x ∷ xs) [] = ⊥
IsPrefix (x ∷ xs) (y ∷ ys) = (x ≡ y) × IsPrefix xs ys

-- A round has appended the messages of an initial part of its batch, and of the whole batch if it
-- got to its end.
abbrev pub InOrder : List Pending → List Message → Round → Type 0
InOrder batch log r =
    (sent : List Pending) × IsPrefix sent batch
    × (r.log ≡ log ++ map message sent)
    × ((r.done ≡ false) ⊎ (sent ≡ batch))

InOrder-cons :
    (p : Pending) (batch : List Pending) (log : List Message) (r : Round)
    → InOrder batch (log ++ (message p ∷ [])) r
    → InOrder (p ∷ batch) log r
InOrder-cons p batch log r (sent, pre, e, d) =
    (p ∷ sent, (refl, pre), e ∙ append_assoc log (message p ∷ []) (map message sent), ends d)
  where
    ends : (r.done ≡ false) ⊎ (sent ≡ batch) → (r.done ≡ false) ⊎ (p ∷ sent ≡ p ∷ batch)
    ends (inl h) = inl h
    ends (inr h) = inr (ap (◌∷◌ p) h)

module _ (writes : ℕ → Write) where
  pub deliver-InOrder :
      (n : ℕ) (batch rows : List Pending) (log : List Message)
      → InOrder batch log (deliver writes n batch rows log)
  unfolding deliver
  deliver-InOrder n [] rows log = ([], tt, sym (append-nil log), inr refl)
  deliver-InOrder n (p ∷ batch) rows log =
      go (writes n) refl
        (deliver-InOrder (n + 1) batch (mark_published p.id rows) (log ++ (message p ∷ [])))
    where
      go :
          (w : Write)
          → writes n ≡ w
          → InOrder batch
              (log ++ (message p ∷ []))
              (deliver writes (n + 1) batch (mark_published p.id rows) (log ++ (message p ∷ [])))
          → InOrder (p ∷ batch) log (deliver writes n (p ∷ batch) rows log)
      go acked e rest =
          rw (e, deliver)
            (InOrder-cons p batch log
              (deliver writes (n + 1) batch (mark_published p.id rows) (log ++ (message p ∷ [])))
              rest)
      go refused e rest = rw (e, deliver) ([], tt, sym (append-nil log), inl refl)
      go unacknowledged e rest = rw (e, deliver) (p ∷ [], (refl, tt), refl, inl refl)

-- The rows with the id of `p` carry the message of `p`.
abbrev pub Agrees : List Pending → Pending → Type 0
Agrees rows p = All (λ r. (str_eq r.id p.id ≡ false) ⊎ (message r ≡ message p)) rows

mem-append_left : (m : Message) (log more : List Message) → Memᴰ m log → Memᴰ m (log ++ more)
mem-append_left m [] more h = elim h [ ]
mem-append_left m (x ∷ log) more (Memᴰ.head e) = Memᴰ.head e
mem-append_left m (x ∷ log) more (Memᴰ.tail h) = Memᴰ.tail (mem-append_left m log more h)

IsSent-append : (p : Pending) (log more : List Message) → IsSent log p → IsSent (log ++ more) p
IsSent-append p log more (inl h) = inl h
IsSent-append p log more (inr h) = inr (mem-append_left (message p) log more h)

pub IsDelivered-append :
    (rows : List Pending) (log more : List Message)
    → IsDelivered rows log
    → IsDelivered rows (log ++ more)
IsDelivered-append [] log more h = tt
IsDelivered-append (r ∷ rows) log more (s, h) =
    (IsSent-append r log more s, IsDelivered-append rows log more h)

mem-snoc : (m : Message) (log : List Message) → Memᴰ m (log ++ (m ∷ []))
mem-snoc m [] = Memᴰ.head refl
mem-snoc m (x ∷ log) = Memᴰ.tail (mem-snoc m log)

mark-IsDelivered :
    (p : Pending) (rows : List Pending) (log : List Message)
    → Agrees rows p
    → IsDelivered rows log
    → IsDelivered (mark_published p.id rows) (log ++ (message p ∷ []))
unfolding mark_published
mark-IsDelivered p [] log a h = tt
mark-IsDelivered p (r ∷ rows) log (same, a) (sent, h) =
    (one (str_eq r.id p.id) refl same, mark-IsDelivered p rows log a h)
  where
    one :
        (b : Bool)
        → str_eq r.id p.id ≡ b
        → (str_eq r.id p.id ≡ false) ⊎ (message r ≡ message p)
        → IsSent
            (log ++ (message p ∷ []))
            (if str_eq r.id p.id then record r { published = true } else r)
    one false e d = rw e (IsSent-append r log (message p ∷ []) sent)
    one true e (inl d) = cc
    one true e (inr d) = rw e (inr (rw d (mem-snoc (message p) log)))

mark-Agrees :
    (id : String) (p : Pending) (rows : List Pending)
    → Agrees rows p
    → Agrees (mark_published id rows) p
unfolding mark_published
mark-Agrees id p [] a = tt
mark-Agrees id p (r ∷ rows) (d, a) = (ground (arith, d), mark-Agrees id p rows a)

mark-All-Agrees :
    (id : String) (ps rows : List Pending)
    → All (Agrees rows) ps
    → All (Agrees (mark_published id rows)) ps
mark-All-Agrees id [] rows a = tt
mark-All-Agrees id (p ∷ ps) rows (d, a) = (mark-Agrees id p rows d, mark-All-Agrees id ps rows a)

-- Every row that is marked has its message in the log, also when the broker refuses or loses an
-- acknowledgement in the middle of a batch.
pub deliver-IsDelivered :
    (writes : ℕ → Write) (n : ℕ) (batch rows : List Pending) (log : List Message)
    → All (Agrees rows) batch
    → IsDelivered rows log
    → IsDelivered (deliver writes n batch rows log).rows (deliver writes n batch rows log).log
unfolding deliver
deliver-IsDelivered writes n [] rows log a h = h
deliver-IsDelivered writes n (p ∷ batch) rows log (d, a) h = go (writes n) refl (
    deliver-IsDelivered writes (n + 1) batch (mark_published p.id rows) (log ++ (message p ∷ []))
      (mark-All-Agrees p.id batch rows a) (mark-IsDelivered p rows log d h))
  where
    later : Round
    later = deliver writes (n + 1) batch (mark_published p.id rows) (log ++ (message p ∷ []))

    go :
        (w : Write)
        → writes n ≡ w
        → IsDelivered later.rows later.log
        → IsDelivered
            (deliver writes n (p ∷ batch) rows log).rows
            (deliver writes n (p ∷ batch) rows log).log
    go acked e rest = rw (e, deliver) rest
    go refused e rest = rw (e, deliver) h
    go unacknowledged e rest = rw (e, deliver) (IsDelivered-append rows log (message p ∷ []) h)
