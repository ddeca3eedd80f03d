-- ===== src/Providers.antt =====
-- function/function.go, function/provider.go and providers/: how functions are decoded and called.
pub mod Aws
pub mod Http
pub mod Kinds
pub mod Loading
pub mod Masking
pub mod Messages
mod Tests
