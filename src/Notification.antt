-- ===== src/Notification.antt =====
-- notification-service (services/notification-service/src).
pub mod Breaker
pub mod Delivery
pub mod Retry
pub mod RateLimiter
