-- ===== src/Poison.antt =====
-- src/sync/poison.rs: the poison flag of a mutex and the errors that carry it.
pub mod Error
pub mod Flag
pub mod Debug
pub mod Laws
pub mod Reports
mod Examples
