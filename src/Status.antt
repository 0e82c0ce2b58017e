-- ===== src/Status.antt =====
-- daemon/status_reply.c, feature_status.c, capabilities.c and status_format.h: what the daemon
-- reports, as values without their wording.
pub mod Format
pub mod Reply
pub mod Feature
pub mod Capabilities
