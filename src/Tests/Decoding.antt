-- ===== src/Tests/Decoding.antt =====
-- `RtcmMessageDecoder::decode` of src/rtcm_decoder_ntrip.cpp on a concrete message.
use rtcmbridge.Base.{◌≡◌, refl, [], ◌∷◌, ◌++◌, arith, Bytes}
use rtcmbridge.Rtcm.Messages.Descriptors.RoundTrip.{Antenna, antenna_bits, text_bits, two_fields}
use rtcmbridge.Rtcm.Decoder.{decode, prologue}
use rtcmbridge.Rtcm.Decoder.Broadcast.{antenna, message_bits, message_text, decode-message_bits}

-- Message 1007 of station 1: an antenna name whose second character cannot be printed, setup 5.
abbrev message : Bytes
message = 0x3E ∷ 0xF0 ∷ 1 ∷ 2 ∷ b'A' ∷ 7 ∷ 5 ∷ []

abbrev choke_ring : Antenna
choke_ring = record {
  stid = 1;
  name = b'A' ∷ 7 ∷ [];
  setup = 5;
  stid_fits = omega arith;
  name_fits = record { short = omega arith; bytes = omega arith };
  setup_fits = omega arith;
}

decode-message_bits_example : decode message ≡ prologue 1007 7 ++ message_text (antenna choke_ring)
decode-message_bits_example =
    decode-message_bits message (antenna choke_ring) [] tt
      (unfold message_bits antenna_bits two_fields text_bits in refl)
