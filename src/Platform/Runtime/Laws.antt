-- ===== src/Platform/Runtime/Laws.antt =====
-- A service that has started anything has its database, with the migrations run.
use logicore_wms.Base.{String, List, ◌∷◌, ◌≡◌, refl, arith, subst, ◌↔◌, ◌⊎◌, inl, inr}
use logicore_wms.Platform.Types.{Result, ok, err, after, env}
use logicore_wms.Platform.Runtime.{
  Migration, migrated, no_change, broken, migration_of, Libraries, Runtime, open_runtime, Ending,
  server_closed, failed, Act, opened, after_open, main,
}

-- What a service that has opened its runtime relies on.
pub record Ready (l : Libraries) (name : String) (r : Runtime) : Type 0 where
  pub migrations : (l.up ≡ migrated) ⊎ (l.up ≡ no_change)
  pub pool : l.new_pool r.database ≡ ok tt
  pub alive : l.ping ≡ ok tt
  pub called : r.name ≡ name
  pub brokers : r.brokers ≡ l.split (env l.getenv "KAFKA_BROKERS" "kafka:9092")

after-then :
    {A B G : Type 0} (r : Result A) (f : A → Result B) {b : B}
    → after r f ≡ ok b
    → ((a : A) → r ≡ ok a → f a ≡ ok b → G)
    → G
after-then (ok a) f h go = go a refl h
after-then (err e) f h go = absurd (cc)

migration_of-ok : (m : Migration) → migration_of m ≡ ok tt → (m ≡ migrated) ⊎ (m ≡ no_change)
migration_of-ok migrated h = inl refl
migration_of-ok no_change h = inr refl
migration_of-ok (broken e) h = cc

open_runtime-Ready :
    (l : Libraries) (name : String) {r : Runtime} → open_runtime l name ≡ ok r → Ready l name r
unfolding open_runtime
open_runtime-Ready l name {r} h =
    after-then (l.open_sql (env l.getenv "DATABASE_URL" "")) _ h λ _ _ h.
      after-then l.with_instance _ h λ _ _ h. after-then l.new_source _ h λ _ _ h.
        after-then l.new_migration _ h λ _ _ h. after-then (migration_of l.up) _ h λ _ up h.
          after-then (l.new_pool (env l.getenv "DATABASE_URL" "")) _ h λ _ pool h.
            after-then l.ping _ h λ _ alive h.
              after-then (l.new_exporter (env l.getenv "OTEL_ENDPOINT" "otel-collector:4318")) _ h
                λ _ _ h. record {
                  migrations = migration_of-ok l.up up;
                  pool = subst (λ d. l.new_pool d ≡ ok tt) (ground (arith, h)) pool;
                  alive = alive;
                  called = ground (arith, h);
                  brokers = ground (arith, h);
                }

-- A service that does anything at all has opened its runtime: the migrations have run, its pool of
-- connections is open and its database has answered. It exits with 0 if and only if its server was
-- closed.
pub main-Ready :
    (l : Libraries) (ending : Ending) (name : String) {a : Act} {acts : List Act}
    → (main l ending name).0 ≡ a ∷ acts
    → (r : Runtime) × (a ≡ opened r)
      × Ready l name r
      × (((main l ending name).1 ≡ 0) ↔ (ending ≡ server_closed))
unfolding main
main-Ready l ending name {a} {acts} h = go (open_runtime l name) refl ending h
  where
    go :
        (o : Result Runtime)
        → open_runtime l name ≡ o
        → (ending : Ending) → (after_open ending o).0 ≡ a ∷ acts
        → (r : Runtime) × (a ≡ opened r)
          × Ready l name r
          × (((after_open ending o).1 ≡ 0) ↔ (ending ≡ server_closed))
    go (err e) q ending h = absurd (cc)
    go (ok r) q server_closed h =
        (r, ground arith, open_runtime-Ready l name q, (λ _. refl, λ _. refl))
    go (ok r) q (failed e) h = (
      r,
      ground arith,
      open_runtime-Ready l name q,
      (λ z. absurd (omega (arith, z)), λ z. absurd (cc)),
    )
