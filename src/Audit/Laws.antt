-- ===== src/Audit/Laws.antt =====
-- The record of events keeps what it has, and its pages are bounded.
use logicore_wms.Base.{
  Bool, true, none, [], ◌∷◌, ◌≢◌, refl, eq_iff, ◌⊎◌, inl, inr, Option-cases, if◌then◌else◌, str_eq,
  ℕ, String, false, Option, some, List, ◌≡◌, ◌≤◌, sym, subst, arith, ◌==◌,
}
use logicore_wms.Base.Int.{ℤ, pos, pos_part}
use logicore_wms.Base.Rows.{find_row}
use logicore_wms.Platform.Types.{Context, ok}
use logicore_wms.Platform.Json.{Payload, string_at}
use logicore_wms.Platform.Tx.{Store, Event}
use logicore_wms.Platform.Tx.Steps.{or_throw-then, execute-end}
use logicore_wms.Audit.{
  Entry, subject, subject_fields, entry_key, entry_of, insert_entry, handle, page,
}

-- What an event is about, by the fields that may say so, the first of them first: a field and its text
-- where it has one, or the event itself.
abbrev IsAbout : List String → String → Payload → String → String → Type 0
IsAbout [] id p kind value = (kind ≡ "event") × (value ≡ id)
IsAbout (f ∷ fields) id p kind value =
    ((string_at p f ≢ "") × (kind ≡ f) × (value ≡ string_at p f))
    ⊎ ((string_at p f ≡ "") × IsAbout fields id p kind value)

-- The entry says what the event does: its type, its subject, its payload and where it comes from.
pub record Tells (e : Event) (x : Entry) : Type 0 where
  pub type : x.event_type ≡ e.type
  pub about :
      IsAbout
        ("stockId" ∷ "shipmentId" ∷ "reservationId" ∷ "locationId" ∷ "productId" ∷ "warehouseId"
          ∷ "id" ∷ [])
        e.id
        e.payload
        x.aggregate_type
        x.aggregate_id
  pub payload : x.payload ≡ e.payload
  pub timestamp : x.timestamp ≡ e.timestamp
  pub correlation : x.correlation ≡ e.correlation
  pub source : x.source ≡ e.source

subject-IsAbout :
    (fields : List String) (id : String) (p : Payload)
    → IsAbout fields id p (subject fields id p).0 (subject fields id p).1
unfolding subject
subject-IsAbout [] id p = (refl, refl)
subject-IsAbout (f ∷ fields) id p =
    go (str_eq (string_at p f) "") refl (subject-IsAbout fields id p)
  where
    go :
        (b : Bool)
        → str_eq (string_at p f) "" ≡ b
        → IsAbout fields id p (subject fields id p).0 (subject fields id p).1
        → IsAbout
            (f ∷ fields)
            id
            p
            (if b then subject fields id p else (f, string_at p f)).0
            (if b then subject fields id p else (f, string_at p f)).1
    go true h r = inr ((eq_iff (string_at p f) "").0 h, r)
    go false h r = inl (present, refl, refl)
      where
        present : string_at p f ≢ ""
        present e = ground (arith, h, (eq_iff (string_at p f) "").1 e)

entry_of-Tells : (k : ℕ) (e : Event) → Tells e (entry_of k e)
entry_of-Tells k e = record {
  type = refl;
  about = subject-IsAbout subject_fields e.id e.payload;
  payload = refl;
  timestamp = refl;
  correlation = refl;
  source = refl;
}

-- The event has an entry that tells of it, unless its identifier had an entry, which stays.
pub record Recorded (c : Context) (e : Event) (l l' : List Entry) : Type 0 where
  pub id : ℕ
  pub reads : c.cast e.id ≡ some id
  pub entry : Entry
  pub found : find_row entry_key id l' ≡ some entry
  pub tells :
      (find_row entry_key id l ≡ some entry) ⊎ ((find_row entry_key id l ≡ none) × Tells e entry)
  pub others : (k : ℕ) → (k == id) ≡ false → find_row entry_key k l' ≡ find_row entry_key k l

Recorded-insert :
    (c : Context) (e : Event) (k : ℕ) (l l' : List Entry)
    → c.cast e.id ≡ some k
    → insert_entry (entry_of k e) l ≡ some l'
    → Recorded c e l l'
unfolding insert_entry find_row
Recorded-insert c e k l l' reads h = elim (Option-cases (find_row entry_key k l)) [
  | inl new ↦ record {
    id = k;
    reads = reads;
    entry = entry_of k e;
    found = ground (arith, new, h);
    tells = inr (new, entry_of-Tells k e);
    others = λ j n. ground (arith, n, new, h);
  }
  | inr (x, old) ↦ record {
    id = k;
    reads = reads;
    entry = x;
    found = ground (arith, old, h);
    tells = inl old;
    others = λ j n. ground (arith, old, h);
  }
]

-- An event that is handled has an entry with its type, its payload, its time, its correlation and its
-- source, and with its subject: the first of the identifiers of a stock, a shipment, a reservation, a
-- location, a product and a warehouse, or the field `id`, that the payload has, and else the event. If
-- the identifier of the event had an entry, that one stays instead. Other entries are as they were.
pub handle-Recorded :
    (c : Context) (e : Event) (s : Store (List Entry)) {s' : Store (List Entry)}
    → handle c e s ≡ (ok tt, s')
    → Recorded c e s.tables s'.tables
unfolding handle
handle-Recorded c e s h = or_throw-then s (c.cast e.id) _ _ h λ k reads h.
    let (t, q, stay) = execute-end s (insert_entry (entry_of k e)) h in
    subst (Recorded c e s.tables) (sym stay) (Recorded-insert c e k s.tables t reads q)

-- A page that is let through has 1 to 500 entries at most, and does not start before the first.
page-bounds :
    (c : Context) (atoi : String → Option ℤ) (product warehouse limit offset : String) {n m : ℤ}
    → page c atoi product warehouse limit offset ≡ ok (n, m)
    → (n ≡ pos (pos_part n)) × (1 ≤ pos_part n) × (pos_part n ≤ 500) × (m ≡ pos (pos_part m))
unfolding page
page-bounds c atoi product warehouse limit offset h = ground arith
