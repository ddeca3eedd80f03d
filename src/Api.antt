-- ===== src/Api.antt =====
-- httpapi/httpapi.go: the configuration API on top of the services.
pub mod Defs
pub mod EventTypes
pub mod Functions
pub mod Subscriptions
pub mod CorsConfigs
pub mod Routes
pub mod Internal
pub mod Reading
pub mod Calls
pub mod Refusing
pub mod Example
mod Tests
