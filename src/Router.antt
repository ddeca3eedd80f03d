-- ===== src/Router.antt =====
-- router/: the queue of async events and its workers, and plugin/: what plugins do to an event.
pub mod Backlog
pub mod Order
pub mod Draining
pub mod Plugins
pub mod World
pub mod Calls
pub mod Serving
pub mod Effects
pub mod Authorized
pub mod Allowed
pub mod Adding
pub mod Fanout
pub mod Rejecting
pub mod Settling
pub mod Spawning
pub mod Steady
pub mod Silent
pub mod Queueing
pub mod Emitting
pub mod Example
pub mod Granting
mod Runs
mod Tests
