-- ===== src/Outbox/Backoff.antt =====
-- packages/kafka/src/backoff.ts. The powers of two that the poller meets are far below 2 ^ 53, where
-- the numbers of the source are exact.
use nexus_commerce.Base.{ℕ, ◌*◌, ◌^◌, min}

pub calculate_backoff : ℕ → ℕ → ℕ → ℕ
calculate_backoff retry_count base_backoff_ms max_backoff_ms =
    min (base_backoff_ms * 2 ^ retry_count) max_backoff_ms
