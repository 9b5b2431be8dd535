-- ===== src/Io.antt =====
-- crates/wire/src/io.rs: frames over a byte stream.
pub mod Reader
pub mod Writer
mod Tests
