-- ===== src/Stream/ForEach.antt =====
-- src/stream/for_each_concurrent_then_try.rs: the state, the loop of `poll`, and its interface to
-- the set of running futures.
pub mod Defs
pub mod Debug
pub mod Laws
pub mod Iteration
pub mod Loop
pub mod Stall
pub mod Limit
pub mod Rule
pub mod Wake
pub mod Stalls
pub mod First
pub mod Delay
pub mod Run
pub mod Woken
pub mod Hangs
mod Examples
mod Monitored
mod Runs
