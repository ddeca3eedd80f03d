-- ===== src/Event.antt =====
-- event/: events and how they are made of requests.
pub mod Headers
pub mod Defs
pub mod Binary
pub mod Parsing
pub mod Extensions
pub mod Normal
pub mod Example
mod Tests
