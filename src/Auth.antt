-- ===== src/Auth.antt =====
-- services/auth-service/src: sign-in, sessions and what the service keeps in Redis.
pub mod Otp
pub mod Tokens
pub mod Refresh
pub mod Credential
pub mod Lockout
pub mod Account
pub mod Bootstrap
pub mod Login
pub mod Invites
pub mod RoleSync
pub mod Reset
pub mod Restore
