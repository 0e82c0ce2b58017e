-- ===== src/Ec.antt =====
-- ec/: the embedded controller, its backends, and reading a word.
pub mod Types
pub mod Fake
pub mod File
pub mod Ports
pub mod Device
pub mod Word
pub mod Memory
pub mod Refine
pub mod Nearest
pub mod Stored
pub mod Wait
