-- ===== src/System.antt =====
-- The parts of the program together: what one of them sends and another receives.
pub mod Routing
pub mod Replies
pub mod Served
pub mod Switches
pub mod Contents
pub mod Answers
pub mod Journey
pub mod Restored
pub mod Undone
pub mod Dashboard
pub mod Typed
pub mod World
mod Examples
mod JourneyExamples
mod WorldExamples
