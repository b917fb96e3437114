-- ===== src/Rtcm.antt =====
-- The RTCM 3 decoder: bit reader, check sum, framer and message decoder.
pub mod BitReader
pub mod Crc
pub mod Output
pub mod Reading
pub mod Messages
pub mod Attempt
pub mod Msm
pub mod Decoder
pub mod Framer
pub mod Client
pub mod Program
pub mod Nats
