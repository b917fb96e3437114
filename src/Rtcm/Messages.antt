-- ===== src/Rtcm/Messages.antt =====
-- The handlers of `RtcmMessageDecoder` for single messages, src/rtcm_decoder_ntrip.cpp.
pub mod Station
pub mod Descriptors
pub mod Ephemeris
pub mod System
