-- ===== src/BuildScript.antt =====
-- build.rs and no_atomic_cas.rs: the build script, as the instructions to cargo that it prints.
-- `env::var("TARGET")` is the argument. Of its error only the text is used.
-- `env!("CARGO_PKG_NAME")` is a parameter.
pub mod Targets
pub mod Script
pub mod Kind
mod Examples
