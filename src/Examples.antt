-- ===== src/Examples.antt =====
-- Programs of examples/ that use the library.
pub mod Consumers
pub mod Contexts
pub mod Workers
