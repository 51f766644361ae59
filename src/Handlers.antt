-- ===== src/Handlers.antt =====
-- internal/api/handlers: what the endpoints do with a request that the middleware let through.
pub mod Common
pub mod Lifecycle
pub mod Validation
pub mod Provision
pub mod Invite
pub mod Expel
pub mod Agents
pub mod Merchants
pub mod Welcome
pub mod Callback
pub mod Spaces
pub mod Reads
pub mod Route
