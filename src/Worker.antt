-- ===== src/Worker.antt =====
-- internal/worker: the task handlers.
pub mod Locks
pub mod View
pub mod Invite
pub mod Expel
pub mod Lifecycle
pub mod Relay
pub mod Retry
pub mod Nickname
pub mod AgentRole
pub mod Welcome
pub mod Provision
pub mod Sweep
pub mod Dispatch
