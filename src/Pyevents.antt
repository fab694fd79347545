-- ===== src/Pyevents.antt =====
-- The shared transport library, libs/pyevents/pyevents: one child for each file that carries logic.
pub mod Json
pub mod Effect
pub mod Db
pub mod Schema
pub mod Connection
pub mod Publisher
pub mod Control
pub mod Outbox
pub mod Consumer
pub mod Saga
mod Examples
