-- ===== src/Stream/Collect.antt =====
-- src/stream/collect_then_try.rs: `CollectThenTry`, its `poll`, and what it collects.
pub mod Defs
pub mod Laws
pub mod Waking
pub mod Run
pub mod Woken
mod Examples
