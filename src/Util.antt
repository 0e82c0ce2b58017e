-- ===== src/Util.antt =====
-- util/: numbers, strings, the JSON scanner.
pub mod Number
pub mod Text
pub mod Strtol
pub mod Json
