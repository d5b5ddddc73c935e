-- ===== src/Cache.antt =====
-- services/user-service/src/cache.
pub mod Circuit
pub mod FirstLevel
pub mod Read
