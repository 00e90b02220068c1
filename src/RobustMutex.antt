-- ===== src/RobustMutex.antt =====
-- src/sync/mutex.rs: `RobustMutex`, the permits that it hands out, and its users as a system.
pub mod Tokio
pub mod Mutex
pub mod Permit
pub mod Perform
pub mod Locking
pub mod Performing
pub mod System
pub mod Safety
pub mod Client
pub mod Refinement
pub mod Calls
pub mod Session
mod Samples
mod Examples
mod Owned
