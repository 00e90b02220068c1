-- ===== src/Future.antt =====
-- The futures that the two join adapters are given, and `futures_util::future::MaybeDone`, in which
-- both keep them.
pub mod MaybeDone
pub mod Round
pub mod Promise
pub mod Waking
pub mod Executor
pub mod Woken
pub mod Noted
pub mod Samples
