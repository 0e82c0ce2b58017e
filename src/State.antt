-- ===== src/State.antt =====
-- util/format.c, daemon/state_persist.c, daemon/state_restore.c and fan/temperature_cache.c: the
-- control state that outlives the daemon.
pub mod Buffer
pub mod Write
pub mod Restore
pub mod Cache
pub mod Saved
pub mod Sound
pub mod RoundTrip
