-- ===== src/Throttle.antt =====
-- internal/auththrottle and internal/store/admin_auth_throttle.go: the throttle of administrator logins.
pub mod Policy
pub mod Store
pub mod Guard
