-- ===== src/Lib.antt =====
-- The RTCM and NTRIP bridges: a caster sends RTCM 3 frames over an NTRIP connection (HTTP or ICY);
-- ntrip2nats republishes them on NATS, nats2ntrip sends them to a caster again, and two tools
-- decode them to text.
--
-- Parts and files:
--   * src/rtcm_decoder_ntrip.cpp is modelled by Rtcm. RtcmStreamFramer::push (Rtcm/Framer) cuts the
--     stream into frames by their preamble, length and check sum (crc24q, Rtcm/Crc), and hands each
--     payload to RtcmMessageDecoder::decode (Rtcm/Decoder). That reads the type with BitReader
--     (Rtcm/BitReader: getU, getS and skip are get_u, get_s and skip) and tries the handlers of
--     Rtcm/Messages and of Rtcm/Msm in the source's order. A read that fails is `none` and the
--     handler then writes the source's decode_error text. The output stream is the list of what is
--     inserted into it (Rtcm/Output); a double is the expression that computes it.
--     NtripDecoderClient (Rtcm/Client) reads the caster's response and feeds the framer; main
--     (Rtcm/Program) starts it.
--     src/rtcm_decoder_nats.cpp holds the same reader, decoder and framer; Rtcm/Nats is its callback,
--     its list of servers and its main, with what the NATS library returns as a parameter.
--   * src/ntrip.cpp and include/ntrip/ntrip.h are modelled by Ntrip. ntripConnection is the record
--     Connection of Ntrip/Connection; each completion handler of asio is a function of the state
--     and of the error code, and the calls made of asio are kept as a list. EVP_EncodeBlock of
--     OpenSSL is a parameter. Ntrip/Source is the sending side: ntripConnection_Source and
--     ntripConnection_Write over blocking calls, of which it is a parameter whether they throw.
--     Ntrip/Options has the options and their setters, Ntrip/Api the other functions of ntrip.h.
--   * src/nats2ntrip.cpp is modelled by Bridge. Bridge/Config reads the configuration file
--     (Bridge/Config/Nats2ntrip; Bridge/Config/Ntrip2nats is the parser of src/ntrip2nats.cpp),
--     Bridge/Session is StreamSession with its queue, and Bridge/Session/Worker its thread: a phase
--     for each call at which it can block, and an event for each return of such a call and for each
--     step of another thread in between. std::hash is a parameter.
--   * StreamSession of src/ntrip2nats.cpp is Bridge/Publisher: handle_stream offers what the
--     connection delivers to natsConnection_Publish; `offered` is what this has been called with and
--     `published` the calls for which it has returned NATS_OK.
--   * The main functions of the two are Bridge/Ntrip2nats and Bridge/Nats2ntrip, and Bridge/Program is
--     what both have in common: the block as the list of the calls that it makes, the sessions that it
--     waits with, and how it is left. What the libraries return is a parameter (World), and so is how
--     io.run() ends. Bridge/Nats2ntrip/Signal is the wait for the signal with its handler, and
--     Bridge/Callbacks the callbacks of the NATS connection.
--   * src/logger.cpp is modelled by Logger: the worker thread is a machine with a phase for each
--     place where another thread can come between, and the calls of the other threads are steps.
--   * Base has what the files share; Tests runs the functions on concrete inputs.
--
-- Bounds and fuel: the loop of RtcmStreamFramer::push has one unit of fuel more than the buffer has
-- bytes, and each turn that does not end the loop takes a byte at least, so that it never runs out.
-- std::to_string has ten digits of fuel, as many as an int has, and std::hex sixteen. The loops of
-- base64_encode turn twice and three times at most, that of split_csv once for each byte and once
-- more. Sums of type uint64_t and size_t keep their remainder by 2^64, BitReader's word 64 bits,
-- crc24q's register 32. All other loops are structural. Buffers are shorter than 2^61 bytes, and the
-- delays of the options below 2147483 seconds: from 2147484 on the int wait in milliseconds of
-- src/nats2ntrip.cpp overflows, and from 2^30 on the int product that doubles a delay, there and in
-- src/ntrip.cpp.
--
-- Not modelled: timeouts, of which the blocking calls that the worker of src/nats2ntrip.cpp makes
-- have none, so that it is not shown that they return; the registration of the signals and the
-- threads that main starts; the logger's clock; asio, OpenSSL and the NATS library, which the
-- source only calls; exhausted memory other than where the functions of ntrip.h report it; the text
-- that the C++ library makes of a double.
pub mod Base
pub mod Rtcm
pub mod Ntrip
pub mod Logger
pub mod Bridge
pub mod Tests
