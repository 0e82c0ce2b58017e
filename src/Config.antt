-- ===== src/Config.antt =====
-- config/: the model profile and the parsers of its sections.
pub mod Types
pub mod Find
pub mod Valid
pub mod Parse
pub mod Safety
pub mod Fans
pub mod Lists
pub mod Sections
pub mod Platform
pub mod Load
