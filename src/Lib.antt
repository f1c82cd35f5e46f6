-- ===== src/Lib.antt =====
-- The Go services of the warehouse management system, which keep the stock, place it and record what happens,
-- and the platform that they are built on. They exchange events: each service writes its events to its outbox,
-- which publishes them, and consumes those of the others through its inbox.
--
-- Platform (libs/platform):
-- * Platform/Types.antt is types.go: `Fault`, `Fail`, `ID`, `Env`, `Correlation`. The record `Context` holds
--   what the code takes from elsewhere: the clock, uuid.Parse, PostgreSQL's casts, fresh identifiers.
-- * Platform/Json.antt is the payload of an event (`map[string]any`) with `String` and `Number`;
--   Platform/Json/Put.antt reads one that was changed,
--   and Platform/Json/Fold.antt compares names of fields as encoding/json does.
-- * Platform/Tx.antt is the database of a service and db.go: `Transaction`, `Lock`, `Emit`. An action is a
--   function of the whole store; what it wrote before an error is still there until `transaction`, or the
--   savepoint `nested`, undoes it. Platform/Tx/Steps.antt inverts an action that succeeded, step by step;
--   Platform/Tx/Frame.antt is about what an action leaves alone.
-- * Platform/Commands.antt is `Command` of db.go; Platform/Inbox.antt is `Process`, Platform/Outbox.antt a round
--   of `Outbox` and Platform/Consumer.antt what `Consume` does with one message, all of messaging.go.
-- * Platform/Query.antt is `Query` of db.go, and Platform/Names.antt the names of the events. Platform/Moves.antt
--   is about relations of the tables that a transaction, an event or a request moves along.
-- * Platform/Http.antt is http.go: `Wrap`, `Body`, `Get`, and the health check.
-- * Platform/Runtime.antt is `Open` of runtime.go, what `Serve` returns, and `main`; Services.antt has the three
--   entry points, services/*/cmd/main.go. The libraries that are opened there are the parameter `Libraries`.
--
-- Inventory (services/inventory-service/internal):
-- * Inventory/Stock.antt is domain/stock.go. Inventory/Tables.antt has the tables, with the constraints of the
--   migration, and the statements on them; `none` is a constraint that refuses.
-- * Inventory/Capacity.antt is `capacity` of application/service.go, Inventory/Changes.antt `Receive` and `Change`.
-- * Inventory/Lots.antt is the query for the lots of a line and the reading of the lines, Inventory/Reserve.antt
--   `reserve`, Inventory/Fulfil.antt `release`, `ship` and `place`, and Inventory/Service.antt `Handle` and a
--   tick of `Work`, all of application/reservations.go.
-- * Inventory/Routes.antt is the routes of application/service.go: `list`, one lot, and the four requests.
-- * Inventory/Runs.antt is the steps of the service: an event, a tick, a request. Inventory/Invariant.antt is the
--   invariant of the tables, with its parts below it, Inventory/Life.antt the abstract life of a reservation,
--   Inventory/Effects.antt what `Change` does to the lots, Inventory/Once.antt events that are delivered again, and
--   Inventory/Expiry.antt what a tick of the expiry worker leaves.
--
-- Placement (services/placement-service/internal): Placement/Scoring.antt is `Score` of domain/scoring.go and the
-- loop of `assign` over the candidates, Placement/Jobs.antt `Handle` and `assign` of application/service.go
-- and Placement/Routes.antt its routes; Placement/Runs.antt is the steps of the service. The
-- operations on float64 are the parameter `Floats`. Exchange.antt is about what the inventory and the placement
-- service tell each other.
--
-- Audit (services/audit-service/internal/application/service.go): Audit.antt is `Handle` and the checks of `list`,
-- Audit/Listing.antt `list` with its query, and the route of one event. `Plan` is how PostgreSQL gets at the rows
-- of the query: that decides whether it meets a row for which the condition fails.
--
-- Bounds: weights and volumes (float64 in the source) are fixed point numbers in units of 10^-9, the tolerance
-- of the source; rounding is not modelled. Quantities are int64 in the source and stay below 10^9 by the
-- invariant, where the model uses unbounded numbers. `attempts` of Platform/Consumer.antt runs on fuel, one unit
-- for an attempt. A transaction runs alone: that one does is what its advisory locks and row locks are for.
-- Not modelled: closing connections, the patterns of the routes, tracing and metrics; the lock in Redis that
-- `assign` takes is only asked for. Of the driver of the database, `Driver` is what a query hands over.
pub mod Audit
pub mod Base
pub mod Exchange
pub mod Inventory
pub mod Placement
pub mod Platform
pub mod Samples
pub mod Services
