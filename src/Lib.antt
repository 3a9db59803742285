-- ===== src/Lib.antt =====
-- vehicle-telematics: the backend of a fleet tracker, in Go.
--
-- A vehicle's report comes in over HTTP. The telemetry package decides what to do with it: a rate
-- limiter per vehicle (pkg/telemetry/smart_rate_limiter.go) may refuse it, the delta tracker
-- (pkg/telemetry/delta_tracker.go) drops it when nothing has changed enough, and what is left is
-- turned into a batch update (convertToBatchUpdate in pkg/telemetry/optimized_service.go). The batch
-- processor (pkg/batch) queues the updates, merges them by vehicle, writes them to the repository in
-- batches with retries, and tells the WebSocket manager (internal/websocket), which passes them on to
-- the clients by their filters. An adaptive scheduler (pkg/telemetry/adaptive_scheduler.go) polls the
-- vehicles at intervals that depend on their state.
--
-- Base holds what the modules share: Boolean tests, lists, Go maps as association lists in the order
-- of a range, the integers with Go's int64 wrap, time in nanoseconds, and Float, an interface for
-- float64. Float is a parameter of everything that computes with float64: its laws, where a theorem
-- needs any, are named hypotheses (Shrinks in Telemetry.RateLimiter.Quota, Expands in
-- Telemetry.Scheduler.Bounds, Refills in Ratelimit.Memory.Grants), and Tests.Numbers fills it
-- with fixed-point numbers.
--
-- Models              internal/models/vehicle.go, alert.go: the documents, fields in the source's order.
-- Telemetry.RateLimiter  smart_rate_limiter.go. SmartRateLimiter is the map of the vehicles' limits with
--                     the configuration; CanMakeRequest is can_make_request, on the time of its call. Backoff has
--                     RequestWithBackoff, whose attempts are a recursion on their number, 3.
-- Telemetry.Delta     delta_tracker.go. ShouldUpdate is should_update; Telemetry.Delta.Payload has
--                     convertToBatchUpdate.
-- Telemetry.Scheduler adaptive_scheduler.go. The goroutine of a ticker is the event fires; a
--                     result none is a panic.
-- Telemetry.Service   optimized_service.go: ProcessVehicleUpdate is process_vehicle_update, over a record of
--                     the vehicle service.
-- Batch.Config        pkg/batch/config.go, with the environment and the parsers as parameters.
-- Batch.Processor     pkg/batch/processor.go. The record Outside stands for the repository, the wait of
--                     a retry and the WebSocket manager, on a state W of the world. One round of the
--                     worker's select is worker_step; which case it takes is the event. The number of
--                     retries is the recursion of retry_from: RetryAttempts itself, so no fuel can run
--                     out. Batch.Split has splitIntoBatches, Batch.Convert convertToWebSocketUpdate.
-- Socket.Filters      shouldSendToClient of internal/websocket/manager.go.
-- Socket.Manager      the rest of manager.go. A *Client is a number in a store, so that the map, the
--                     client's goroutine and a pending departure speak of one object; a result none is
--                     a panic. The goroutines are the events of step, in any order.
-- Maintenance         internal/services/maintenance.go with internal/models/maintenance.go: Intervals the
--                     choice of a service interval, Reminders the status of a reminder, Schedules the
--                     handlers of the schedules, Records those of the records, Due the vehicles whose
--                     service is due, over records of the repositories.
-- Ratelimit           pkg/ratelimit: Config the categories of the endpoints, Memory the limiter that keeps
--                     its buckets in memory.
--
-- Cache               pkg/cache: the configuration and the interface CacheManager, on a state C. Cache.View says
--                     what a lawful cache may answer; Cache.Redis has the manager of redis_cache.go, with
--                     its keys, tags and counters, over parameters for Redis and for the JSON of a value
--                     (KeepsText and ReadsBack are what they are relied on for).
-- Vehicles            internal/services/vehicle.go: Requests the fields of an update, Alerts the three alarms of
--                     an update, Caching the reads through the cache and what a change drops of it,
--                     Service.Defs the handlers, Service.Handle a history of requests. The repository,
--                     relied on as KeepsVehicles says, is a parameter on a state D, the alerts' on A.
-- Alerts              internal/services/alert.go: the handlers on both repositories (Stores), with the copies of
--                     the alerts that the vehicles carry, and GetAlertStatistics in Statistics. KeepsAlerts
--                     is what Resolved relies on.
-- Users               internal/models/user.go; Tokens is pkg/jwt/jwt.go over a record for golang-jwt (ParsesSigned is
--                     what is relied on), with T for the texts of tokens; Accounts is
--                     internal/services/user.go and Login internal/services/auth.go, over records for the
--                     repository (KeepsUsers), bcrypt, the random source and the mail.
--
-- The modules Tests.* run the definitions on concrete inputs, and hold for each result
-- an input that meets its conditions.
--
-- Not modelled: the simulation of vehicles and its broadcasts in internal/services/vehicle.go; the
-- configuration of the telemetry; the limiter on Redis and the middleware; the MongoDB repositories,
-- with the adapter of pkg/batch; the gin handlers, the start-up, mail and clean-up, which are calls of
-- libraries. Log lines are left out everywhere. The counters, the sizes of channels and the tokens
-- of a bucket are numbers without a bound: they are taken to stay below 2 ^ 63. Mutexes are left out
-- where a function holds one from its first line to its last.
pub mod Alerts
pub mod Base
pub mod Batch
pub mod Cache
pub mod Maintenance
pub mod Models
pub mod Ratelimit
pub mod Socket
pub mod Telemetry
pub mod Tests
pub mod Users
pub mod Vehicles
