-- ===== src/Platform/Runtime.antt =====
-- libs/platform/runtime.go, `Serve` of libs/platform/http.go, and `main` of the services
-- (services/*/cmd/main.go): how a service starts and ends. The libraries that it opens its connections
-- with are a parameter.
pub mod Laws
use logicore_wms.Base.{
  String, Bool, true, false, ℕ, List, [], ◌∷◌, Option, none, some, if◌then◌else◌,
}
use logicore_wms.Platform.Types.{Error, internal, Result, ok, err, after, env}

-- What `m.Up()` ends with.
pub data Migration : Type 0 where
  migrated no_change : Migration
  broken : Error → Migration

-- What the calls of `Open` come to: `sql.Open`, `postgres.WithInstance`, `iofs.New`,
-- `migrate.NewWithInstance`, `Up`, `pgxpool.New`, `Ping` and `otlptracehttp.New`, by their arguments.
pub record Libraries : Type 0 where
  pub open_sql : String → Result (Unit {0})
  pub with_instance : Result (Unit {0})
  pub new_source : Result (Unit {0})
  pub new_migration : Result (Unit {0})
  pub up : Migration
  pub new_pool : String → Result (Unit {0})
  pub ping : Result (Unit {0})
  pub new_exporter : String → Result (Unit {0})
  -- `os.Getenv`, and `strings.Split` at the commas
  pub getenv : String → String
  pub split : String → List String

-- A service's runtime: its name and what its clients were opened with. The clients themselves, the
-- metrics and the tracer belong to libraries.
pub record Runtime : Type 0 where
  pub name : String
  pub database : String
  pub brokers : List String
  pub redis : String

-- Migrations that were run before are no error.
abbrev pub migration_of : Migration → Result (Unit {0})
migration_of migrated = ok tt
migration_of no_change = ok tt
migration_of (broken e) = err e

-- `Open`
unfoldable pub open_runtime : Libraries → String → Result Runtime
open_runtime l name =
    let dsn = env l.getenv "DATABASE_URL" "" in
    after (l.open_sql dsn) λ _. after l.with_instance λ _. after l.new_source λ _.
      after l.new_migration λ _. after (migration_of l.up) λ _. after (l.new_pool dsn) λ _.
        after l.ping λ _.
          after (l.new_exporter (env l.getenv "OTEL_ENDPOINT" "otel-collector:4318")) λ _.
            ok (record {
              name = name;
              database = dsn;
              brokers = l.split (env l.getenv "KAFKA_BROKERS" "kafka:9092");
              redis = env l.getenv "REDIS_ADDR" "redis:6379";
            })

-- What `ListenAndServe` ends with.
pub data Ending : Type 0 where
  server_closed : Ending
  failed : Error → Ending

-- `Serve`
abbrev pub serve : Ending → Result (Unit {0})
serve server_closed = ok tt
serve (failed e) = err e

-- What `main` does, in order.
pub data Act : Type 0 where
  opened : Runtime → Act
  routed outbox_started consumer_started worker_started served closed : Act

-- `main`: its acts, and the code that the process exits with. `os.Exit` skips what was deferred.
abbrev pub after_open : Ending → Result Runtime → List Act × ℕ
after_open ending (err e) = ([], 1)
after_open ending (ok r) = elim (serve ending) [
  | ok _ ↦ (
    opened r ∷ routed ∷ outbox_started ∷ consumer_started ∷ worker_started ∷ served ∷ closed ∷ [],
    0,
  )
  | err e ↦
      (opened r ∷ routed ∷ outbox_started ∷ consumer_started ∷ worker_started ∷ served ∷ [], 1)
]

unfoldable pub main : Libraries → Ending → String → List Act × ℕ
main l ending name = after_open ending (open_runtime l name)
