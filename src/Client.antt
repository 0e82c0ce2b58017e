-- ===== src/Client.antt =====
-- client/ and commands/client/: the command line client, up to what it asks of the daemon.
pub mod Types
pub mod Transport
pub mod Capture
pub mod Parse
pub mod Fan
pub mod Platform
pub mod Backlight
pub mod Builtin
pub mod Dispatch
pub mod Decimal
pub mod Accepted
pub mod Received
pub mod Dumped
pub mod Known
pub mod Groups
pub mod Bounds
pub mod Served
