-- ===== src/Lib.antt =====
-- The multi-tenant notification service of this repository, modelled over its durable store: what
-- the API accepts becomes rows of PostgreSQL and an intent of the dispatch outbox; a publisher leases
-- intents and puts jobs on queues; workers take jobs, send through providers and record the outcome.
--
-- Parts, and the files that model them (paths of the code from the repository's root):
--   * Base: shared names, Boolean tests, lists, tables of rows with a text key, ORDER BY, and the keys of
--     the rows that a query picks.
--   * Store.Model, Store.Rows, Store.Action (internal/store/postgres.go): the rows, the reads by key, and
--     operations as state passing. An operation gives the tables back beside an error too, and
--     `transaction` undoes what precedes an error.
--   * Store.Status: statuses; deriveNotificationStatus, isAttemptTerminalState. Store.Status.Rollup
--     describes the derived status by the statuses that occur.
--   * Store.Attempts: MarkAttemptInProgress, MarkAttemptSent, MarkAttemptFailed, ScheduleRetry,
--     MarkAttemptDeadLettered, RecalculateNotificationStatus, MarkAttemptEnqueued and
--     UpdateAttemptProvider. Its children prove the branches of one write (Transitions), the edges of
--     the lifecycle (Lifecycle), what every statement on the attempts does to them, those of
--     publications, retries and insertions included (Touched, Writes), and what holds of any sequence of these
--     (Traces).
--   * Store.Policy: ResolveDeliveryPolicy, the pause gate of the claim, UpsertDeliveryPolicy and
--     SetDeliveryPolicyPaused.
--   * Store.Outbox: CreateDispatchIntent, ClaimPendingDispatchIntents, MarkDispatchIntentPublished,
--     RecordDispatchIntentError. Children: Intents, Leases, Publication.
--   * Store.Records: LoadDeliveryJob, InsertDeadLetter, RecordAuditEvent. Store.Accounts: CreateTenant,
--     CreateTemplate. Store.Ingest: CreateNotification, CreateDeliveryAttempt,
--     CreateNotificationWithInitialDispatch. Store.Ingest.Recovery: EnsureInitialAttempt.
--   * Store.Atomic, with Dispatch and Redrive: what the operations that the API calls leave when they fail.
--   * Store.Retries: ListDueRetryAttempts, EnsureRetryAttempt and EnsureReplayAttempt; Once and Again
--     follow a second request for the same retry.
--   * Store.Scheduling: PromoteDueScheduledNotifications, CancelScheduledNotification and
--     RedriveNotification. Waiting counts the rows that wait, Joined has the rows of its queries, Promotion and Loop follow the
--     promotion of a row and of all, Due and Cancellation have what it promotes and what is withdrawn.
--   * Store.Maintenance: RunMaintenance and CollectOperationalMetrics; Cleanup is about the first.
--   * Delivery (internal/delivery/service.go): Retry is nextRetryAt, Channels the senders of the two
--     channels with their failover, Process the processing of one job. The service uses the store
--     through the interface NotificationStore; Delivery.Laws says what it relies on, and
--     Delivery.Postgres fills interface and laws with the model of the store.
--   * Worker (internal/worker/runner.go): the fair scheduler of the tenants of one worker.
--     Fairness has what one search does, Order follows each tenant's jobs, Running bounds those that
--     run at once.
--   * Queue (internal/queue): the pressure of the queues, and in Queue.Resp the commands and responses on
--     the connection to Redis, byte by byte; Decimal, RoundTrip, Suffix and
--     Termination are about the reader. Queue.Jobs are the
--     operations on jobs over a Redis that is a parameter: Laws says what is relied on, Recovery and
--     Settled are about recovery and consumption. Queue.Limiter is the rate limiter, and its child
--     Window about the calls of one window.
--   * Publisher (internal/outbox/publisher.go): RunOnce, over the model of the store and a queue that is
--     a parameter. Progress counts the intents that are not published, Claimed and Held are about
--     the batch, Batch and Termination follow the loops, Delivered and Drained are about a queue that
--     takes every job.
--   * Notify (internal/notify/service.go): the in-memory service of the API, with its records in
--     Notify.Model. Entries is about maps, Quota follows any sequence of calls, Idempotency a
--     repeated submission.
--   * Pressure (internal/pressure/pressure.go): the monitor of the queues and its counters.
--   * Api (internal/http/handlers): a monad of steps over the store and the monitor, in which a step may
--     answer the request; Accounts, Notifications, Policies, DeadLetters and Reads are the handlers of
--     api.go, Health those of health.go and metrics.go. Api.Router (internal/http/router.go) is the
--     table of routes with the middleware of administrators and of the body's limit. Steps and
--     Refusals, and Refused of two modules, are about requests that end in an error, Guarded about
--     the routes of administrators, Resubmitted, Existing and Again about a repeated submission.
--   * Examples: the theorems applied to small tables, and tests.
--
-- How the code is read. A time or span is a natural number of nanoseconds, and one call sees one instant
-- `now`. A negative setting behaves as 0, for the code tests each by `<= 0` or `> 0`; the one exception, a negative
-- retention of dead letters, is an error of RunMaintenance and outside the model. The in-memory service
-- reads the clock for the day of the quota and again for the time of submission, which the model takes
-- as one instant, and its daily quota is not negative. Texts stand for
-- identifiers and JSON. The driver's own failures (a lost connection) are not outcomes of the model of
-- the store, while the delivery service is proved over a store that may give any error. Each SQL
-- statement is one step, as PostgreSQL's row locks make the guarded UPDATEs; a sequence of calls stands
-- for any order in which the database serves concurrent workers. PromoteDueScheduledNotifications writes on
-- its transaction while it reads the rows of its query; the model takes the query as read to its end,
-- though the driver, lib/pq, does not support that order of calls. Keys, references and checks of an
-- INSERT are those of db/schema.sql, the INTEGER columns of delivery policies included; the references of an intent are not checked again, since its
-- callers read or insert the rows in the same transaction, nor are the enums of channels. Providers,
-- text/template, the identifiers, the draw of the jitter and the depth of a queue are parameters. So are
-- what the API takes from others: decoded bodies, the pattern that http.ServeMux picks, SHA-256, the
-- collation of the database, and what the limiter and the queues answer at a request. A handler runs
-- from its first step to its last with nothing between; that two submissions race is in the model of
-- the store, whose INSERTs check the keys.
--
-- Loops: the backoff loops and the search of the scheduler are structural recursion on the number of
-- rounds that the code's own loop has, so no fuel is involved. RunOnce has fuel for its rounds, and more
-- rounds than there are unpublished intents are enough; readResponseLocked, which calls itself, has fuel
-- for its depth, and one call more than there are bytes is enough; it panics on a length beyond what the
-- runtime allocates on a 64-bit platform. RecoverProcessingQueue has fuel for
-- its rounds, and one more than there are jobs is enough where nothing is added meanwhile; the rounds of
-- ReserveChannel are those for which its context lives.
--
-- Not modelled: Redis itself, the dialling of its connection, the goroutines of the workers, the older paths of
-- retry and replay that nothing calls, the HTTP surface of the in-memory service, configuration, commands, logs, counters and traces.
mod Base
pub mod Store
pub mod Delivery
pub mod Worker
pub mod Queue
pub mod Publisher
pub mod Notify
pub mod Pressure
pub mod Api
pub mod Examples
