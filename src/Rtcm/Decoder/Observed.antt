-- ===== src/Rtcm/Decoder/Observed.antt =====
-- What `RtcmMessageDecoder::decode` of src/rtcm_decoder_ntrip.cpp makes of an observation.
use rtcmbridge.Base.{
  ℕ, ◌%◌, ◌≤◌, ◌<◌, ◌≡◌, refl, ◌∙◌, false, none, some, List, ◌∷◌, ◌++◌, arith, Bytes, length, ◌==◌,
  le→ltb_false,
}
use rtcmbridge.Rtcm.BitReader.{BitReader}
use rtcmbridge.Rtcm.BitReader.Bits.{to_bits, bits}
use rtcmbridge.Rtcm.Output.{Stream}
use rtcmbridge.Rtcm.Reading.{Handler}
use rtcmbridge.Rtcm.Messages.Station.{decode_1005_1006}
use rtcmbridge.Rtcm.Messages.Descriptors.{decode_1007_1008, decode_1033}
use rtcmbridge.Rtcm.Messages.Ephemeris.{decode_1019, decode_1020, decode_1045_1046, decode_1230}
use rtcmbridge.Rtcm.Messages.System.{decode_1013}
use rtcmbridge.Rtcm.Attempt.{done}
use rtcmbridge.Rtcm.Msm.{level_of, read_msm, decode_msm}
use rtcmbridge.Rtcm.Msm.Signals.{constellation_code}
use rtcmbridge.Rtcm.Msm.Report.{Observations, header_text, cells_text}
use rtcmbridge.Rtcm.Msm.Encoding.{header_bits}
use rtcmbridge.Rtcm.Msm.Epoch.{Epoch, epoch_bits, observed, read_msm-epoch_bits}
use rtcmbridge.Rtcm.Decoder.{decode, prologue, dispatch, handlers}
use rtcmbridge.Rtcm.Decoder.Typed.{decode-body}

-- The types of the observations of the levels 4 to 7.
pub record IsMsm (type : ℕ) : Type 0 where
  pub first : 1071 ≤ type
  pub last : type ≤ 1127
  pub level_first : 4 ≤ type % 10
  pub level_last : type % 10 ≤ 7

below : (n type : ℕ) → n < type → (type == n) ≡ false
below n type h = ground arith

above : (n type : ℕ) → type < n → (type == n) ≡ false
above n type h = ground arith

-- A handler that leaves the message to the others.
abbrev Leaves : ℕ → Handler → Type 0
Leaves type handler = (br : BitReader) (oss : Stream) → handler type br oss ≡ none

module _ (type : ℕ) (h : IsMsm type) where
  other : (n : ℕ) → n < 1071 → (type == n) ≡ false
  other n k = below n type (omega (arith, k, h.first))

  decode_1005_1006-Leaves : Leaves type decode_1005_1006
  unfolding decode_1005_1006
  decode_1005_1006-Leaves br oss = rw (other 1005 (omega arith), other 1006 (omega arith)) refl

  decode_1007_1008-Leaves : Leaves type decode_1007_1008
  unfolding decode_1007_1008
  decode_1007_1008-Leaves br oss = rw (other 1007 (omega arith), other 1008 (omega arith)) refl

  decode_1033-Leaves : Leaves type decode_1033
  unfolding decode_1033
  decode_1033-Leaves br oss = rw (other 1033 (omega arith)) refl

  decode_1013-Leaves : Leaves type decode_1013
  unfolding decode_1013
  decode_1013-Leaves br oss = rw (other 1013 (omega arith)) refl

  decode_1019-Leaves : Leaves type decode_1019
  unfolding decode_1019
  decode_1019-Leaves br oss = rw (other 1019 (omega arith)) refl

  decode_1020-Leaves : Leaves type decode_1020
  unfolding decode_1020
  decode_1020-Leaves br oss = rw (other 1020 (omega arith)) refl

  decode_1045_1046-Leaves : Leaves type decode_1045_1046
  unfolding decode_1045_1046
  decode_1045_1046-Leaves br oss = rw (other 1045 (omega arith), other 1046 (omega arith)) refl

  decode_1230-Leaves : Leaves type decode_1230
  unfolding decode_1230
  decode_1230-Leaves br oss = rw (above 1230 type (omega (arith, h.last))) refl

  next_handler :
      (handler : Handler) (later : List Handler) (br : BitReader) (oss : Stream)
      → Leaves type handler
      → dispatch (handler ∷ later) type br oss ≡ dispatch later type br oss
  unfolding dispatch
  next_handler handler later br oss leaves = rw (leaves br oss) refl

  dispatch-msm :
      (br : BitReader) (oss written : Stream)
      → decode_msm type br oss ≡ some written
      → dispatch handlers type br oss ≡ some written
  dispatch-msm br oss written e =
      next_handler decode_1005_1006 _ br oss decode_1005_1006-Leaves
      ∙ next_handler decode_1007_1008 _ br oss decode_1007_1008-Leaves
      ∙ next_handler decode_1033 _ br oss decode_1033-Leaves
      ∙ next_handler decode_1013 _ br oss decode_1013-Leaves
      ∙ next_handler decode_1019 _ br oss decode_1019-Leaves
      ∙ next_handler decode_1020 _ br oss decode_1020-Leaves
      ∙ next_handler decode_1045_1046 _ br oss decode_1045_1046-Leaves
      ∙ next_handler decode_1230 _ br oss decode_1230-Leaves
      ∙ (unfold dispatch in rw (dispatch, e) refl)

  decode_msm-done :
      (br br' : BitReader) (oss : Stream) (m : Observations)
      → read_msm (level_of type) br ≡ done m br'
      → decode_msm type br oss
        ≡ some (oss ++ header_text m ++ cells_text (level_of type) (constellation_code type) m)
  unfolding decode_msm
  decode_msm-done br br' oss m e =
      rw
        (
          decode_msm,
          le→ltb_false 1071 type h.first,
          le→ltb_false type 1127 h.last,
          le→ltb_false 4 (type % 10) h.level_first,
          le→ltb_false (type % 10) 7 h.level_last,
          e,
        )
        refl

-- A payload that holds the type of an observation of level 4 to 7 and its fields, satellite by satellite
-- and cell by cell, each field in the range of its width and whatever stands behind them, is decoded to
-- the line of exactly that observation.
pub decode-epoch_bits :
    (payload : Bytes) (type : ℕ) (e : Epoch (level_of type)) (rest : List ℕ)
    → IsMsm type
    → bits payload ≡ to_bits 12 type ++ (epoch_bits (level_of type) e ++ rest)
    → let m = observed (level_of type) e in
      decode payload
      ≡ prologue type (length payload)
        ++ header_text m
        ++ cells_text (level_of type) (constellation_code type) m
decode-epoch_bits payload type e rest h b =
    let level = level_of type in
    decode-body payload type (epoch_bits level e ++ rest) _ (omega (arith, h.last))
      (unfold epoch_bits header_bits in omega arith) b
      (λ br at.
        let (br', read, _) = (read_msm-epoch_bits level e).run br rest at in
        dispatch-msm type h br _ _ (decode_msm-done type h br br' _ (observed level e) read))
