-- ===== src/CoopCancel.antt =====
-- src/coop_cancel.rs: cooperative cancellation.
pub mod Channels
pub mod Defs
pub mod Debug
pub mod System
pub mod Invariant
pub mod Safety
pub mod Results
pub mod Delivery
pub mod Held
pub mod Release
pub mod Settled
pub mod Told
mod Samples
mod Examples
