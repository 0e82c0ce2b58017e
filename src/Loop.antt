-- ===== src/Loop.antt =====
-- daemon.c, daemon/loop.c and daemon/args.c: the start of the daemon and its control loop.
pub mod Args
pub mod Step
pub mod Startup
pub mod Seeded
pub mod Sound
pub mod Timing
