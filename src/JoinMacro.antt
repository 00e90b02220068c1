-- ===== src/JoinMacro.antt =====
-- src/macros/join_then_try.rs: the future that `join_then_try!` builds.
pub mod Defs
pub mod Passes
pub mod Loop
pub mod Polling
pub mod Rotation
pub mod Macro
mod Split
pub mod Sizes
pub mod Waking
pub mod Fair
pub mod Advance
pub mod Run
pub mod Finished
pub mod Woken
mod Examples
