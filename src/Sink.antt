-- ===== src/Sink.antt =====
-- src/sink: the adapters that separate waiting for a sink from sending to it.
pub mod Defs
pub mod Ext
pub mod Client
pub mod Trace
pub mod Polling
pub mod Sound
pub mod Protocol
pub mod Run
mod Examples
mod Slow
