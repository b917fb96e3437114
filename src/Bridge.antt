-- ===== src/Bridge.antt =====
-- The bridges between NATS and NTRIP: src/nats2ntrip.cpp and src/ntrip2nats.cpp.
pub mod Config
pub mod Session
pub mod Publisher
pub mod Program
pub mod Ntrip2nats
pub mod Nats2ntrip
pub mod Mains
pub mod Callbacks
