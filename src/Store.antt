-- ===== src/Store.antt =====
-- internal/store and internal/store/postgres: the tables and the statements on them.
pub mod Db
pub mod Spaces
pub mod Members
pub mod Jobs
pub mod Outbox
pub mod Merchants
pub mod Users
pub mod ApiKeys
pub mod Tokens
pub mod Listings
pub mod Unique
