-- ===== src/Lib.antt =====
-- TrackFlow tracks the delivery of orders: Go services behind an HTTP gateway, on PostgreSQL and
-- Redis. This library models the gateway and four services, order-service, tracking-service,
-- notification-service and carrier-sync-service.
--
-- A creation or an assignment goes through api-gateway, which checks it and forwards it, to
-- order-service, whose handler decodes it, whose service checks it, and whose repository adds the
-- order under its idempotency key, or gives it its courier, in one transaction. A status request
-- reaches tracking-service, whose repository moves the order and appends to its history in one
-- transaction; then the service drops the cached timeline and the cached order and calls the
-- notifier. notification-service sends an event unless it sent the same one a short while ago.
-- carrier-sync-service asks a carrier for statuses, maps them to the five of tracking-service and
-- pushes them there, with retries. order-service and tracking-service write the same tables and share
-- the key of a cached order.
--
--   Prelude       shared types: lists and integers over the native numbers, float64 values as they
--                 are compared, results, and actions that read and change a state and may fail
--   Text          Go strings as lists of code points: strings.TrimSpace, strings.ToLower,
--                 strconv.Atoi, url.PathEscape, the pattern of UUIDs
--   Http          http.Header as a list of keys and values; Handling: response writers and handlers
--   Environment   getEnv and getDurationEnv of services/order-service/cmd/server/main.go, and the
--                 addresses of other services
--   RequestId     services/order-service/internal/requestid, the same in every service
--   Server        handler.New of services/*/internal/handler/handler.go: what stands around the handlers
--                 of each service, whose routes are in its Router
--   Database      the tables of migrations/postgres, sessions whose calls may each meet a fault, and
--                 transactions
--   Tracking      services/tracking-service/internal: Status (service/state_machine.go), Service
--                 (service/service.go), Repository (repository/postgres), Cache (cache/redis),
--                 Handler (handler/handler.go), Notifier (notification/http_client.go), Wiring
--                 (cmd/server/main.go)
--   Order         services/order-service/internal: Validation and Service (service/service.go),
--                 Statements and Repository (repository/postgres), Cache (cache/redis), Handler
--                 (handler/handler.go), Wiring (cmd/server/main.go)
--   System        the calls of both repositories on one database, in any order, creations among the
--                 calls of other instances, and Passage: a request through the gateway and a network
--                 that may lose it or its answer
--   Gateway       services/api-gateway/internal/gateway: Validation (validation.go), Error
--                 (errors.go), Headers and Middleware (middleware.go), Upstream and Proxy (proxy.go,
--                 adapter.go), Router (router.go), Configuration (proxy.go)
--   Metrics       services/order-service/internal/observability, the same in every service
--                 but for the gateway's metrics.go: the counters, Middleware
--   Notification  services/notification-service/internal: Event and Service (service/service.go,
--                 model/event.go), Handler (handler/handler.go), Sender (sender/mock.go,
--                 cmd/server/main.go)
--   Carrier       services/carrier-sync-service/internal: Mapping (mapping/status_mapper.go), Service
--                 (service/service.go), Backoff, Worker and Worker.Loop (worker/worker.go), Client
--                 (client/tracking_http.go), Mock (client/mock.go), Handler (handler/handler.go),
--                 Wiring (cmd/server/main.go)
--   Tests         concrete inputs, and the theorems at them
--
-- A function of the source has its name in snake case. A method that changes something outside its
-- receiver is an action on a state type; an interface of the source is a record of actions, and a nil
-- interface is none. Errors are values: a data type in the two services whose callers ask which error
-- it is, and their messages elsewhere. A query is a function on the tables, with the constraints that
-- a row meets. A call of a repository runs alone: the transactions lock the row that they read, or
-- rest on a unique constraint. What other instances do falls between the calls. Any call may meet a
-- fault; at a commit the fault may be that the server has committed and its acknowledgement is lost.
--
-- Loops recurse on lists, on the rounds that are left, or, for the underscores of a carrier's status,
-- on fuel: the length of the text, which is enough since every round shortens it.
--
-- A handler takes a writer as a record of operations, and returns or panics. The mux is its list of
-- routes: how a path falls into segments is a parameter, and which route answers is computed. The
-- worker runs a cycle at the start and one for every tick of a list, which ends where its context is
-- done.
--
-- Parameters: the casts, the rounding and the drawn ids of PostgreSQL, the Redis client, JSON texts,
-- the carrier, the sender, HTTP clients, what the network does to a message, url.Parse,
-- time.ParseDuration, the environment, clocks, random bytes, the context, and how the operations on
-- float64 round; a float64 is a finite value. Not modelled: net/http and encoding/json below the
-- decoded request, log lines, deadlines, listening and shutting down, and the calendar of time.Time
-- (an instant is a number of nanoseconds).
pub mod Prelude
pub mod Text
pub mod Http
pub mod RequestId
pub mod Environment
pub mod Server
pub mod Database
pub mod Tracking
pub mod Order
pub mod System
pub mod Gateway
pub mod Metrics
pub mod Notification
pub mod Carrier
pub mod Tests
