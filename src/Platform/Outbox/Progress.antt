-- ===== src/Platform/Outbox/Progress.antt =====
-- What a tick of the publisher does to the rows and the log, and how it gets on.
use logicore_wms.Base.{
  ℕ, zero, suc, String, Bool, true, false, not, List, [], ◌∷◌, ◌++◌, ◌+◌, ◌≡◌, refl, ◌⊎◌, inl, inr,
  All, take, keep, map, arith, eq_iff, eq_refl, drop, str_eq, Bool-cases, if◌then◌else◌,
}
use logicore_wms.Platform.Tx.{Store, Pending}
use logicore_wms.Platform.Outbox.{
  Message, Write, acked, message, limit, unpublished, mark_published, Round, deliver, publish,
}
use logicore_wms.Platform.Outbox.Laws.{
  IsDistinct, IsDelivered, InOrder, IsPrefix, Agrees, IsDelivered-append, deliver-InOrder,
  deliver-IsDelivered,
}

All-map :
    {A : Type 0} {P Q : A → Type 0} (xs : List A) → ((x : A) → P x → Q x) → All P xs → All Q xs
All-map [] f h = tt
All-map (x ∷ xs) f (p, h) = (f x p, All-map xs f h)

module _ {A : Type 0} (P : A → Type 0) where
  All-keep : (test : A → Bool) (xs : List A) → All P xs → All P (keep test xs)
  All-keep test [] h = tt
  All-keep test (x ∷ xs) (p, h) = one (test x) (All-keep test xs h)
    where
      one : (b : Bool) → All P (keep test xs) → All P (if b then x ∷ keep test xs else keep test xs)
      one true rest = (p, rest)
      one false rest = rest

  All-take : (n : ℕ) (xs : List A) → All P xs → All P (take n xs)
  All-take zero xs h = tt
  All-take (suc n) [] h = tt
  All-take (suc n) (x ∷ xs) (p, h) = (p, All-take n xs h)

differ : (r p : Pending) → str_eq r.id p.id ≡ false → str_eq p.id r.id ≡ false
differ r p h = ground (arith, eq_iff r.id p.id, eq_iff p.id r.id)

IsDistinct-Agrees : (rows : List Pending) → IsDistinct rows → All (Agrees rows) rows
IsDistinct-Agrees [] d = tt
IsDistinct-Agrees (p ∷ rows) (new, d) =
    ((inr refl, All-map rows (λ r h. inl h) new), later rows new (IsDistinct-Agrees rows d))
  where
    later :
        (l : List Pending)
        → All (λ r. str_eq r.id p.id ≡ false) l
        → All (Agrees rows) l
        → All (Agrees (p ∷ rows)) l
    later [] new a = tt
    later (r ∷ l) (n, new) (h, a) = ((inl (differ r p n), h), later l new a)

-- A tick keeps this: a row that is marked as published has its message in the topic. So no event is
-- lost, whatever the broker does.
pub publish-IsDelivered :
    {T : Type 0} (writes : ℕ → Write) (s : Store T) (log : List Message)
    → IsDistinct s.outbox
    → IsDelivered s.outbox log
    → let (s', log') = publish writes s log in IsDelivered s'.outbox log'
unfolding publish unpublished
publish-IsDelivered {T} writes s log d h =
    go r.done (deliver-IsDelivered writes 0 batch s.outbox log agree h)
      (deliver-InOrder writes 0 batch s.outbox log)
  where
    batch : List Pending
    batch = take limit (unpublished s.outbox)

    r : Round
    r = deliver writes 0 batch s.outbox log

    agree : All (Agrees s.outbox) batch
    agree =
        All-take _ limit _
          (All-keep _ (λ p. not p.published) s.outbox (IsDistinct-Agrees s.outbox d))

    go :
        (b : Bool)
        → IsDelivered r.rows r.log
        → InOrder batch log r
        → IsDelivered (if◌then◌else◌ {A = Store T} b (record s { outbox = r.rows }) s).outbox r.log
    go true after o = after
    go false after (sent, pre, e, ends) = rw e (IsDelivered-append s.outbox log _ h)

module _ (p : Pending) where
  mark-absent :
      (rows : List Pending)
      → All (λ r. str_eq r.id p.id ≡ false) rows
      → mark_published p.id rows ≡ rows
  unfolding mark_published
  mark-absent [] h = refl
  mark-absent (r ∷ rows) (n, h) = rw (n, mark-absent rows h) refl

-- Marking the first row that is not published takes it off the rows that are left to publish.
unpublished-mark :
    (p : Pending) (rows rest : List Pending)
    → IsDistinct rows
    → unpublished rows ≡ p ∷ rest
    → unpublished (mark_published p.id rows) ≡ rest
unfolding unpublished mark_published
unpublished-mark p [] rest d h = cc
unpublished-mark p (r ∷ rows) rest (new, d) h = elim (Bool-cases r.published) [
  | inl e ↦ ground (arith, unpublished-mark p rows rest d)
  | inr e ↦ ground (arith, mark-absent r rows new, eq_refl r.id)
]

mark-IsDistinct :
    (id : String) (rows : List Pending) → IsDistinct rows → IsDistinct (mark_published id rows)
unfolding mark_published
mark-IsDistinct id [] d = tt
mark-IsDistinct id (p ∷ rows) (new, d) = (others rows new, mark-IsDistinct id rows d)
  where
    same : Pending → String
    same q = (if◌then◌else◌ {A = Pending} (str_eq q.id id) (record q { published = true }) q).id

    others :
        (l : List Pending)
        → All (λ r. str_eq r.id p.id ≡ false) l
        → All (λ r. str_eq r.id (same p) ≡ false) (mark_published id l)
    others [] new = tt
    others (r ∷ l) (n, new) = (ground arith, others l new)

-- With every write acknowledged a batch that heads the unpublished rows is marked, all of it.
deliver-unpublished :
    (writes : ℕ → Write) (n k : ℕ) (u rows : List Pending) (log : List Message)
    → ((i : ℕ) → writes i ≡ acked)
    → IsDistinct rows
    → unpublished rows ≡ u
    → let r = deliver writes n (take k u) rows log in
      (r.done ≡ true) × (unpublished r.rows ≡ drop k u)
unfolding deliver
deliver-unpublished writes n zero u rows log ack d e = (refl, e)
deliver-unpublished writes n (suc k) [] rows log ack d e = (refl, e)
deliver-unpublished writes n (suc k) (p ∷ u) rows log ack d e =
    rw (ack n, deliver)
      (deliver-unpublished writes (n + 1) k u (mark_published p.id rows) (log ++ (message p ∷ []))
        ack (mark-IsDistinct p.id rows d) (unpublished-mark p rows u d e))

-- While the broker acknowledges every write, a tick publishes the fifty oldest rows that are left,
-- or all of them if they are fewer: what is left then is what stood behind those.
pub publish-unpublished :
    {T : Type 0} (writes : ℕ → Write) (s : Store T) (log : List Message)
    → ((i : ℕ) → writes i ≡ acked)
    → IsDistinct s.outbox
    → unpublished (publish writes s log).0.outbox ≡ drop limit (unpublished s.outbox)
unfolding publish
publish-unpublished writes s log ack d =
    let (done, left) =
      deliver-unpublished writes 0 limit (unpublished s.outbox) s.outbox log ack d refl in
    rw done left

-- Each tick appends to the topic the messages of an initial part of the oldest rows that were left,
-- in the order of the rows, and only where it got through all of them are rows marked.
pub publish_in_order :
    {T : Type 0} (writes : ℕ → Write) (s : Store T) (log : List Message)
    → let (s', log') = publish writes s log in
      (sent : List Pending) × IsPrefix sent (take limit (unpublished s.outbox))
      × (log' ≡ log ++ map message sent)
      × ((s' ≡ s) ⊎ (sent ≡ take limit (unpublished s.outbox)))
unfolding publish
publish_in_order {T} writes s log = go r.done refl (deliver-InOrder writes 0 batch s.outbox log)
  where
    batch : List Pending
    batch = take limit (unpublished s.outbox)

    r : Round
    r = deliver writes 0 batch s.outbox log

    go :
        (b : Bool)
        → r.done ≡ b
        → InOrder batch log r
        → (sent : List Pending) × IsPrefix sent batch
          × (r.log ≡ log ++ map message sent)
          × ((if◌then◌else◌ {A = Store T} b (record s { outbox = r.rows }) s ≡ s) ⊎ (sent ≡ batch))
    go false e (sent, pre, l, ends) = (sent, pre, l, inl refl)
    go true e (sent, pre, l, inl broken) = cc
    go true e (sent, pre, l, inr whole) = (sent, pre, l, inr whole)
