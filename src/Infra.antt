-- ===== src/Infra.antt =====
-- infra/: what sets the broker up before the services start.
pub mod Topology
