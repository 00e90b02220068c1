-- ===== src/JoinAll.antt =====
-- src/future/join_all_then_try.rs: `JoinAllThenTry`, which joins a list of futures.
pub mod Small
pub mod Polling
pub mod Kinds
pub mod Debug
pub mod Outcomes
pub mod Waking
pub mod Run
pub mod Finished
pub mod Woken
pub mod Samples
mod Examples
