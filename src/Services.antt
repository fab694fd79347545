-- ===== src/Services.antt =====
-- The services, one module for each folder of services/ that is written in Python.
pub mod Control
pub mod Orchestrator
pub mod Payment
pub mod Inventory
pub mod Shipping
pub mod Order
pub mod Observer
pub mod Mains
pub mod Samples
mod Examples
