-- ===== src/Devices.antt =====
-- The devices of `kernel/devices`.
pub mod Console
