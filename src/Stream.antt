-- ===== src/Stream.antt =====
-- src/stream: the adapters of `TryStreamExt`, over streams of results.
pub mod Defs
pub mod Collect
pub mod ForEach
pub mod Ext
mod Samples
