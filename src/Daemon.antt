-- ===== src/Daemon.antt =====
-- commands/daemon/: the commands that the daemon takes, and its registry.
pub mod Types
pub mod Fan
pub mod Modes
pub mod Power
pub mod Backlight
pub mod Control
pub mod Protocol
pub mod Registry
pub mod Chosen
pub mod ReadOnly
pub mod Permission
pub mod Dispatch
pub mod Sound
pub mod Invariant
pub mod Errors
