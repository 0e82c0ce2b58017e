-- ===== src/Platform.antt =====
-- platform/: firmware fan modes and platform profiles.
pub mod FanMode
pub mod Profile
pub mod Host
pub mod PowerSource
pub mod SensorPower
