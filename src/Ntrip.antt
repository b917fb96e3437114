-- ===== src/Ntrip.antt =====
-- The NTRIP client library: include/ntrip/ntrip.h and src/ntrip.cpp.
pub mod Options
pub mod Connection
pub mod Source
pub mod Api
