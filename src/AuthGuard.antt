-- ===== src/AuthGuard.antt =====
-- ise_exporter/auth_guard.py: the authentication guard that the transports share.
pub mod State
pub mod Calls
pub mod File
mod Lockout
mod Persistence
mod Overflow
mod Examples
