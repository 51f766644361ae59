-- ===== src/Api.antt =====
-- internal/api and internal/authz: what a request passes before its handler.
pub mod Bearer
pub mod Auth
pub mod Guarded
pub mod Idempotency
pub mod Replays
pub mod Untouched
