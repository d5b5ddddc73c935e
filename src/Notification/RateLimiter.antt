-- ===== src/Notification/RateLimiter.antt =====
-- services/notification-service/src/ratelimit/rateLimiter.ts. Redis is not part of the repository: a
-- sorted set is the interface `SortedSet`, with what the commands ZREMRANGEBYSCORE, ZCARD, ZRANGE and
-- ZADD are documented to do as its laws, and PEXPIRE is the time kept beside the set.
pub mod SortedSet
pub mod Window
pub mod RetryAfter
mod ListSet
mod Tests
use nexus_commerce.Base.{
  ℕ, ◌+◌, ◌-◌, ◌≤◌, Bool, true, false, Option, none, some, List, [], ◌∷◌, String, ltb, leb, str_eq,
  if◌then◌else◌,
}
use SortedSet.{SortedSetOps}

pub record Options : Type 0 where
  pub limit : ℕ
  pub window_ms : ℕ

-- The triple that SLIDING_WINDOW_LUA returns; the first is 1 or 0 there.
pub record Reply : Type 0 where
  pub allowed : Bool
  pub count : ℕ
  pub retry_after : ℕ

pub record RateLimitResult : Type 0 where
  pub allowed : Bool
  pub remaining : ℕ
  pub limit : ℕ
  pub retry_after_ms : ℕ

-- `tonumber(oldest[2]) or 0`
abbrev pub oldest_score : Option ℕ → ℕ
oldest_score none = 0
oldest_score (some t) = t

module _ (ops : SortedSetOps) where
  open ops use {Z, empty, remove_up_to, card, first_score, add}

  -- A key of Redis: its sorted set, and the time at which it expires if one was set.
  pub record Bucket : Type 0 where
    pub set : Z
    pub expires_at : Option ℕ

  abbrev pub new : Bucket
  new = record { set = empty; expires_at = none }

  -- What the key holds at a time.
  abbrev pub live_set : ℕ → Option ℕ → Z → Z
  live_set now none z = z
  live_set now (some t) z = if leb t now then empty else z

  -- ZREMRANGEBYSCORE KEYS[1] 0 (now - window), which removes nothing if the difference is negative.
  abbrev pub pruned : Options → ℕ → Bucket → Z
  pruned o now b =
      let z = live_set now b.expires_at b.set in
      if leb o.window_ms now then remove_up_to (now - o.window_ms) z else z

  -- SLIDING_WINDOW_LUA. `-` stops at 0, as the script's test of `retryAfter` makes it.
  pub sliding_window : Options → ℕ → String → Bucket → Bucket × Reply
  sliding_window o now member b =
      let z = pruned o now b in
      let count = card z in
      if leb o.limit count
      then (
        record b { set = z },
        record {
          allowed = false;
          count = count;
          retry_after = oldest_score (first_score z) + o.window_ms - now;
        },
      )
      else (
        record { set = add now member z; expires_at = some (now + (o.window_ms + 1000)) },
        record { allowed = true; count = count + 1; retry_after = 0 },
      )

  -- `check` for one identifier; `reachable` is false if Redis throws.
  pub check : Options → Bool → ℕ → String → Bucket → Bucket × RateLimitResult
  unfolding sliding_window
  check o reachable now member b =
      if reachable
      then (let (b', raw) = sliding_window o now member b in
          (
            b',
            record {
              allowed = raw.allowed;
              remaining = if raw.allowed then o.limit - raw.count else 0;
              limit = o.limit;
              retry_after_ms = raw.retry_after;
            },
          ))
      else (b, record { allowed = true; remaining = o.limit; limit = o.limit; retry_after_ms = 0 })
