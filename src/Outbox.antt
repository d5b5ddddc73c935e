-- ===== src/Outbox.antt =====
-- packages/kafka/src: the transactional outbox, from the row that a service writes to the message
-- that its poller publishes.
pub mod Row
pub mod Backoff
pub mod Db
pub mod ListDb
pub mod DeadLetter
pub mod Poller
