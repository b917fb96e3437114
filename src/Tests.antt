-- ===== src/Tests.antt =====
-- The program's functions run on concrete inputs.
pub mod Reading
pub mod Decoding
pub mod Framing
pub mod Observing
pub mod Sending
pub mod Streaming
pub mod Queueing
pub mod Configuring
pub mod Feeding
pub mod Logging
pub mod Subscribing
pub mod Publishing
pub mod Bridging
