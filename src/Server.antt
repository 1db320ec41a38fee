-- ===== src/Server.antt =====
-- The Go server: its routes, the token of the administration API, the validation of what is
-- stored, the limits of what is listed, and the rate limit middleware.
pub mod Auth
pub mod Router
pub mod Policies
pub mod Store
pub mod Events
pub mod Gate
pub mod Handlers
pub mod Factory
pub mod Accounts
pub mod Config
pub mod System
pub mod Limits
pub mod Cors
pub mod Monitor
