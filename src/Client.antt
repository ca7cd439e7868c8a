-- ===== src/Client.antt =====
-- The client package: the circuit breaker, selectors, one connection and the xclient.
pub mod Breaker
pub mod Selectors
pub mod Conn
pub mod Plugins
pub mod FailModes
pub mod Cache
pub mod FanOut
pub mod OneClient
mod Tests
