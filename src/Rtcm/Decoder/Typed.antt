-- ===== src/Rtcm/Decoder/Typed.antt =====
-- How `RtcmMessageDecoder::decode` of src/rtcm_decoder_ntrip.cpp finds the handler of a message.
use rtcmbridge.Base.{
  ℕ, ◌^◌, ◌≤◌, ◌<◌, List, [], ◌++◌, ◌≡◌, refl, ap, sym, ◌∙◌, some, append-nil, Bytes, length, arith,
  ltb, false, le→ltb_false, length-append,
}
use rtcmbridge.Rtcm.BitReader.{BitReader, bit_reader, get_u}
use rtcmbridge.Rtcm.BitReader.Bits.{to_bits, bits, length-bits}
use rtcmbridge.Rtcm.BitReader.Fields.{length-to_bits}
use rtcmbridge.Rtcm.Output.{Stream}
use rtcmbridge.Rtcm.Reading.Decodes.{At, get_u-Decodes}
use rtcmbridge.Rtcm.Decoder.{decode, prologue, dispatch, handlers}

decode_typed :
    (payload : Bytes) (type : ℕ) (br : BitReader) (written : Stream)
    → 2 ≤ length payload
    → get_u 12 (bit_reader payload) ≡ some (type, br)
    → dispatch handlers type br (prologue type (length payload)) ≡ some written
    → decode payload ≡ written
unfolding decode
decode_typed payload type br written h e d =
    let long : ltb (length payload) 2 ≡ false = le→ltb_false 2 (length payload) h in
    rw (decode, long, e, d) refl

bit_reader-At :
    (payload : Bytes) (field : List ℕ) → bits payload ≡ field → At (bit_reader payload) field
unfolding bit_reader
bit_reader-At payload field h = record {
  valid = record { total = refl; within = omega arith };
  holds = record { before = []; after = []; splits = h ∙ sym (append-nil field); here = refl };
}

-- A payload that holds a type and then a body that a handler writes out is decoded to the line with the
-- type, the length and what the handler writes.
pub decode-body :
    (payload : Bytes) (type : ℕ) (body : List ℕ) (written : Stream)
    → type < 2 ^ 12
    → 4 ≤ length body
    → bits payload ≡ to_bits 12 type ++ body
    → ((br : BitReader)
        → At br body
        → dispatch handlers type br (prologue type (length payload)) ≡ some written)
    → decode payload ≡ written
decode-body payload type body written f long h k =
    let (br, typed, at) =
      (get_u-Decodes 12 type (omega arith) f).run (bit_reader payload) body
        (bit_reader-At payload _ h) in
    let two_bytes : 2 ≤ length payload = omega (
      arith,
      length-bits payload,
      ap length h,
      length-append (to_bits 12 type) body,
      length-to_bits 12 type,
    ) in
    decode_typed payload type br written two_bytes typed (k br at)
