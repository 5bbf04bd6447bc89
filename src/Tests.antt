-- ===== src/Tests.antt =====
-- The library's theorems at concrete inputs.
pub mod Wire
pub mod Registry
pub mod Streams
pub mod Client
pub mod Agent
pub mod Http
pub mod Network
pub mod Bodies
