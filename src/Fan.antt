-- ===== src/Fan.antt =====
-- fan/: the cooling state machine.
pub mod State
pub mod Filter
pub mod Policy
pub mod Safety
pub mod Observation
pub mod Control
pub mod Requests
pub mod Ramp
pub mod Quiet
pub mod Invariant
pub mod Forced
pub mod Permitted
pub mod Lifecycle
