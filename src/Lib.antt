-- ===== src/Lib.antt =====
-- A verification of the core of Nexus Commerce, a shop made of services that exchange events.
--
-- The parts and how they interact. A service writes an event as a row of its outbox table in the
-- transaction that changes its data; the outbox poller of packages/kafka later claims such rows in
-- batches and publishes them to Kafka. The notification service consumes the events and sends
-- emails, guarded by a rate limiter, retries with backoff and a circuit breaker. The auth service
-- registers accounts with one-time passwords, signs them in with a password and a lockout, and keeps
-- sessions alive by rotating refresh tokens; codes and tokens are kept in Redis. It also resets
-- passwords, restores accounts, invites administrators and keeps a replica of the roles, which events
-- of the user service change. The user service keeps the accounts themselves, behind a cache of two
-- levels, and the dead letters. The API gateway stands in front of the services and cuts off one
-- that fails. Every service answers an error through its global error handler.
--
-- What models what:
--   Base, Base/Tests, Base/Lists, Base/Outcomes: names, tests and lemmas that the others share
--   Events: packages/event-contracts/src (topics, the dead-letter event) and JSON values
--   Prisma, Prisma/Memory: the calls of a Prisma delegate, as an interface with laws and an instance
--   Redis: the commands GET, SET and DEL with expiry, as an interface with laws
--   Outbox/Row, Outbox/Db, Outbox/Backoff, Outbox/DeadLetter, Outbox/Poller: packages/kafka/src
--     (types.ts, outboxWriter.ts, topicRouter.ts, backoff.ts, deadLetter.ts, outboxPoller.ts); a
--     function has the name of the source, processNextBatch as `process_next_batch`
--   Outbox/Poller/*: the theorems on the poller; Outbox/ListDb: a table as a list, for the examples
--   Notification/Breaker: services/notification-service/src/resilience/circuitBreaker.ts
--   Notification/Retry: services/notification-service/src/resilience/backoff.ts
--   Notification/RateLimiter: services/notification-service/src/ratelimit/rateLimiter.ts
--   Notification/Delivery: idempotency/idempotency.ts, services/notificationLog.ts, services/dlq.ts and
--     services/notificationService.ts of services/notification-service/src, on the row of one event
--   Cache/Circuit: services/user-service/src/cache/circuitBreaker.ts
--   Cache/FirstLevel: the class L1Cache of services/user-service/src/cache/cacheManager.ts
--   Cache/Read: the keys of services/user-service/src/cache/cacheKeys.ts, and cacheGet and
--     cacheInvalidate of services/user-service/src/cache/cacheManager.ts
--   Users: services/user-service/src/modules/user (user.repository.ts, user.service.ts and
--     provisionAccount.ts)
--   DeadLetters: services/user-service/src/pagination/cursorPagination.ts and
--     services/user-service/src/modules/dead-letter-event/deadLetterEvent.repository.ts
--   Errors: packages/errors/src/index.ts; Errors/Handler: packages/shared-types/src/index.ts and the
--     globalErrorHandler of the user service; Errors/Plain: that of the notification service
--   Redaction: packages/logger/src/redaction.ts
--   Gateway: services/api-gateway/src/middlewares/circuitBreaker.ts
--   Auth/Otp: services/auth-service/src/utils/otp and the sending of a code in
--     services/auth-service/src/modules/auth/auth.service.ts
--   Auth/Tokens, Auth/Refresh: services/auth-service/src/utils/token,
--     services/auth-service/src/repositories/refreshToken.ts, and the refresh and the logout of
--     services/auth-service/src/modules/auth/auth.service.ts
--   Auth/Credential, Auth/Lockout, Auth/Account, Auth/Login: the row of an account, the lockout of
--     services/auth-service/src/utils/handleLogin.ts, what completeLogin refuses, and the logins of
--     the modules auth, customer, seller and admin of services/auth-service/src
--   Auth/Invites: services/auth-service/src/modules/admin/admin.service.ts and
--     services/auth-service/src/repositories/adminInvite.ts
--   Auth/Bootstrap: services/auth-service/src/bootstrap/superAdmin.ts
--   Auth/RoleSync: services/auth-service/src/events/consumers/roleSyncConsumer.ts and
--     services/auth-service/src/repositories/credential.ts
--   Auth/Reset, Auth/Restore: the reset of a password and the restore of an account in
--     services/auth-service/src/modules/auth/auth.service.ts
--
-- State is passed explicitly: a function takes the table, the store or the breaker and returns the
-- new one with what it returns or throws. A time is a number of milliseconds and an argument of the
-- function that reads the clock, and so are random values and what an awaited call gives. Where
-- `now - t >= d` is tested, the model tests `t + d <= now`, which is the same in numbers without sign.
-- A function that awaits several calls of Redis or of the database is one step where nothing else is
-- said, so that a sequence of such steps models calls that do not overlap; calls that do are modelled
-- step by step for invites, role changes, refresh tokens, the claims of the pollers and the circuit
-- breaker of the notification service. Prisma, Kafka, Redis, the sorted sets of Redis and
-- jsonwebtoken are not part of the repository: they are interfaces with laws, or arguments that
-- say which call throws. The loops are over lists, but for the one of retryWithBackoff, which
-- recurs on the number of attempts left.
--
-- Not modelled: logging but for its redaction, HTTP and Express glue, the timers of the poller, the
-- consumers of the notification service, the completion of a registration, becoming a seller, the
-- HTTP client of the user service, the error handlers of the auth
-- service and the gateway, which are near copies of the one modelled, the redrive of dead letters and
-- the rest of the API gateway. The web application is user interface.
pub mod Base
pub mod Events
pub mod Outbox
pub mod Notification
pub mod Auth
pub mod Cache
pub mod DeadLetters
pub mod Errors
pub mod Gateway
pub mod Prisma
pub mod Redaction
pub mod Redis
pub mod Users
