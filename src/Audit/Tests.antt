-- ===== src/Audit/Tests.antt =====
-- An event is recorded, and a page is asked for.
use logicore_wms.Base.{
  All, inl, ◌++◌, ◌≢◌, Ordered, sum_by, ℕ, ap, arith, String, Option, some, List, [], ◌∷◌, ◌≡◌,
  refl, none, map,
}
use logicore_wms.Base.Int.{ℤ, pos}
use logicore_wms.Base.Rows.{find_row}
use logicore_wms.Samples.{site, store_of, site-reads}
use logicore_wms.Platform.Json.{Json, Payload, text, get}
use logicore_wms.Platform.Tx.{Store, Event, event_of, stock_added, reservation_rejected}
use logicore_wms.Audit.{Entry, handle, insert_entry, entry_of}
use logicore_wms.Platform.Types.{ok}
use logicore_wms.Platform.Query.{Driver, IsSound, handed}
use logicore_wms.Audit.Listing.{following, sorting, list, items_in, matching, has_product}
use logicore_wms.Audit.Asked.{IsAsked}
use logicore_wms.Audit.Plans.{IsEarlier}
use logicore_wms.Audit.Blocked.{list-blocked}
use logicore_wms.Audit.Pages.{Numerals, read_pages, pages_all}
use logicore_wms.Audit.Laws.{Recorded, handle-Recorded}

abbrev event : Event
event = event_of site 5 stock_added (("productId", text (site.text 7)) ∷ [])

abbrev empty : Store (List Entry)
empty = store_of []

handle-Recorded_example : Recorded site event [] (handle site event empty).1.tables
unfolding handle insert_entry find_row
handle-Recorded_example = handle-Recorded site event empty {s' = (handle site event empty).1} refl

-- Of an entry only the subject is shown.
abbrev driver : Driver Entry Payload
driver = record {
  fetch = λ rows. ok (handed (λ x. x.aggregate_id) rows);
  row_text = λ x. x.aggregate_id;
  decode = λ s. ok (("aggregate_id", text s) ∷ []);
  view = λ x. ("aggregate_id", text x.aggregate_id) ∷ [];
}

driver-IsSound : IsSound driver
driver-IsSound = record { answers = λ rows. refl; reads = λ x. refl }

abbrev as_number : Option ℕ → Option ℤ
as_number none = none
as_number (some n) = some (pos n)

abbrev strokes : Numerals
strokes = record {
  atoi = λ s. as_number (site.cast s);
  show = site.text;
  reads = λ n. ap as_number (site-reads n);
  wants = refl;
}

abbrev shows : Json → String
shows v = "?"

abbrev entries : List Entry
entries = entry_of 1 event ∷ entry_of 2 event ∷ entry_of 3 event ∷ []

-- Three entries on two pages of two.
pages_all_example :
    (rows : List Entry) × (read_pages driver driver-IsSound site strokes shows following "" "" "" 2
        entries 2 0
      ≡ ok (map driver.view rows))
    × All (IsAsked shows "" "" "") rows
    × Ordered IsEarlier rows
    × (sum_by (λ x. x.timestamp) rows ≡ sum_by (λ x. x.timestamp) entries)
unfolding matching has_product
pages_all_example =
    pages_all driver driver-IsSound site strokes shows following "" "" "" 2 entries entries refl
      (omega arith) (omega arith) refl refl 2 (λ x. x.timestamp) (omega arith)
      λ x other.
        absurd
          (other (record { of_kind = inl refl; of_warehouse = inl refl; of_product = inl refl }))

-- The rejection of an order whose items are a text.
abbrev odd : Event
odd = event_of site 6 reservation_rejected (("items", text "none") ∷ [])

list-blocked_example :
    list shows sorting site strokes.atoi driver
      (site.text 7)
      ""
      ""
      ""
      ""
      ((entry_of 1 event ∷ []) ++ (entry_of 2 odd ∷ []))
    ≢ ok []
unfolding items_in get
list-blocked_example =
    list-blocked shows (site.text 7) "" "" (entry_of 2 odd) refl refl refl site strokes.atoi driver
      "" "" (entry_of 1 event ∷ []) [] []
