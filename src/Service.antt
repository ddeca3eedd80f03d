-- ===== src/Service.antt =====
-- libkv/: the services that keep the resources in the key-value store.
pub mod Defs
pub mod Validation
pub mod Lookup
pub mod Functions
pub mod EventTypes
pub mod Subscriptions
pub mod CorsConfigs
pub mod Inversion
pub mod Changes
pub mod Integrity
pub mod Reading
pub mod Raising
pub mod Unchanged
pub mod Failing
pub mod Example
mod Tests
