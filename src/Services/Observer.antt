-- ===== src/Services/Observer.antt =====
-- services/observer/app: a spectator of the queues and of the services' databases.
pub mod Stats
pub mod Feed
pub mod Control
pub mod Consumer
pub mod Queues
pub mod Kill
mod Examples
mod KillExamples
