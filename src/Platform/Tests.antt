-- ===== src/Platform/Tests.antt =====
-- The platform's theorems on small stores.
use Prim.Native.String.{len}
use logicore_wms.Base.{
  take, map, ◌++◌, ◌⊎◌, List, ◌<◌, ◌≤◌, ◌↔◌, ℕ, String, suc, Bool, true, false, [], ◌∷◌, ◌≡◌, ◌≢◌,
  refl, arith, inl, leb,
}
use logicore_wms.Platform.Tx.{
  Pending, Store, Tx, Event, modify, throw, pure, ◌>>◌, stock_added, transaction, event_of,
}
use logicore_wms.Platform.Outbox.{refused, limit, message, acked, publish, unpublished}
use logicore_wms.Platform.Outbox.Laws.{IsPrefix, IsDelivered}
use logicore_wms.Platform.Outbox.Progress.{
  publish_in_order, publish-IsDelivered, publish-unpublished,
}
use logicore_wms.Platform.Types.{internal, ok, err, fail, invalid}
use logicore_wms.Platform.Runtime.{
  Libraries, Runtime, no_change, opened, routed, outbox_started, consumer_started, worker_started,
  served, closed, server_closed, open_runtime, main,
}
use logicore_wms.Platform.Runtime.Laws.{Ready, main-Ready}
use logicore_wms.Platform.Http.{wrap}
use logicore_wms.Platform.Http.Laws.{wrap-bounds, wrap_hides}
use logicore_wms.Samples.{site, store_of}
use logicore_wms.Platform.Inbox.{process, mark}
use logicore_wms.Platform.Inbox.Laws.{process_again, Settles, process-Settles}
use logicore_wms.Platform.Commands.{Codec, command, saved_at, answer_once}
use logicore_wms.Platform.Commands.Laws.{command_again, command_conflict}
use logicore_wms.Platform.Consumer.{World, running, clean, consume, attempts}
use logicore_wms.Platform.Consumer.Laws.{IsHandled, committed-IsHandled, attempts-ne-running}

-- A service that keeps one number, and answers a request, which is a text, with the text.
abbrev echo : Codec String String
echo = record { fingerprint = λ r. ok r; encode = λ a. ok a; decode = λ b. ok b }

abbrev count : Tx ℕ String
count = modify suc >> pure "done"

abbrev counted : Store ℕ
counted = (command echo "key" "request" count (store_of 0)).1

command_again_example :
    command echo "key" "request" (throw (invalid "")) counted ≡ (ok "done", counted)
unfolding command answer_once saved_at transaction
command_again_example =
    command_again echo "key" "request" count (throw (invalid "")) (store_of 0) {a = "done"}
      {s' = counted} (λ x b e. cc) refl

command_conflict_example :
    command echo "key" "other" count counted
    ≡ (err (fail "IDEMPOTENCY_CONFLICT" "Key reused with different request"), counted)
unfolding command answer_once saved_at transaction
command_conflict_example =
    command_conflict echo "key" "request" "other" count count (store_of 0) {hash' = "other"}
      {a = "done"} {s' = counted} (λ x b e. cc) refl refl (λ e. cc)

abbrev event : Event
event = event_of site 3 stock_added []

process-Settles_example :
    Settles site event (store_of 0) (process site (λ c e. modify suc) event (store_of 0))
process-Settles_example = process-Settles (λ c e. modify suc) site event (λ s. refl) (store_of 0)

-- Two events of which the first has been published.
abbrev row : ℕ → Bool → Pending
row n sent = record {
  id = site.text n;
  aggregate_id = site.text n;
  event_type = stock_added;
  payload = event_of site n stock_added [];
  published = sent;
}

abbrev waiting : Store ℕ
waiting = record (store_of 0) { outbox = row 1 false ∷ row 2 false ∷ [] }

publish-unpublished_example : unpublished (publish (λ _. acked) waiting []).0.outbox ≡ []
unfolding unpublished
publish-unpublished_example =
    publish-unpublished (λ _. acked) waiting [] (λ _. refl) ((refl, tt), (tt, tt))

publish-IsDelivered_example :
    IsDelivered (publish (λ _. acked) waiting []).0.outbox (publish (λ _. acked) waiting []).1
publish-IsDelivered_example =
    publish-IsDelivered (λ _. acked) waiting [] ((refl, tt), (tt, tt)) (inl refl, (inl refl, tt))

-- A message that is never processed; the sixth attempt writes it to the dead-letter topic.
abbrev poison : World
poison = record {
  parsed = true;
  over = λ _. false;
  over_waiting = λ _. false;
  processes = λ _. false;
  dead_letters = leb 5;
  commits = true;
}

committed-IsHandled_example : IsHandled poison (consume poison 9)
unfolding consume attempts
committed-IsHandled_example = committed-IsHandled poison 9 refl refl

attempts-ne-running_example : (attempts poison 6 0 clean).0 ≢ running
attempts-ne-running_example =
    attempts-ne-running poison 6 0 5 clean (λ h. cc) (omega arith) refl (omega arith) (omega arith)

wrap-bounds_example :
    (0 < len (wrap {A = ℕ} "" "fresh" λ _. ok 1).correlation)
    × (len (wrap {A = ℕ} "" "fresh" λ _. ok 1).correlation ≤ 80)
wrap-bounds_example = wrap-bounds "" "fresh" (λ _. ok 1) (omega arith) (omega arith)

wrap_hides_example :
    wrap {A = ℕ} "me" "fresh" (λ _. err (internal "duplicate key"))
    ≡ wrap "me" "fresh" (λ _. err (internal "no rows"))
wrap_hides_example =
    wrap_hides "me" "fresh" (λ _. err (internal "duplicate key")) (λ _. err (internal "no rows"))
      refl refl

publish_in_order_example :
    (sent : List Pending) × IsPrefix sent (take limit (unpublished waiting.outbox))
    × ((publish (λ _. refused) waiting []).1 ≡ [] ++ map message sent)
    × (((publish (λ _. refused) waiting []).0 ≡ waiting)
        ⊎ (sent ≡ take limit (unpublished waiting.outbox)))
publish_in_order_example = publish_in_order (λ _. refused) waiting []

abbrev worked : Store ℕ
worked = (process site (λ c e. modify suc) event (store_of 0)).1

process_again_example : process site (λ c e. modify suc) event worked ≡ (ok tt, worked)
unfolding process mark transaction
process_again_example =
    process_again (λ c e. modify suc) site event (λ s. refl) (λ c e. modify suc) site (store_of 0)
      {s' = worked} refl refl refl

-- A service that finds its tables as they should be.
abbrev libraries : Libraries
libraries = record {
  open_sql = λ _. ok tt;
  with_instance = ok tt;
  new_source = ok tt;
  new_migration = ok tt;
  up = no_change;
  new_pool = λ _. ok tt;
  ping = ok tt;
  new_exporter = λ _. ok tt;
  getenv = λ _. "value";
  split = λ s. s ∷ [];
}

abbrev running_service : Runtime
running_service = record {
  name = "audit-service";
  database = "value";
  brokers = "value" ∷ [];
  redis = "value";
}

main-Ready_example :
    (r : Runtime) × (opened running_service ≡ opened r)
    × Ready libraries "audit-service" r
    × (((main libraries server_closed "audit-service").1 ≡ 0) ↔ (server_closed ≡ server_closed))
unfolding main open_runtime logicore_wms.Platform.Types.env
main-Ready_example =
    main-Ready libraries server_closed "audit-service" {a = opened running_service}
      {acts = routed ∷ outbox_started ∷ consumer_started ∷ worker_started ∷ served ∷ closed ∷ []}
      refl
