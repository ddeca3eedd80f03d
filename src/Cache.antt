-- ===== src/Cache.antt =====
-- internal/cache/: what the router knows of the configuration, and how it follows the store.
pub mod Watcher
pub mod Keyed
pub mod Subscribers
pub mod Origins
pub mod Target
pub mod Mirror
pub mod Async
pub mod Routes
pub mod Roots
mod Tests
