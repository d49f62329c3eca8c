-- ===== src/Network.antt =====
-- `kernel/network`: the protocols.
pub mod Tcp
