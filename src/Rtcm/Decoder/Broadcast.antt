-- ===== src/Rtcm/Decoder/Broadcast.antt =====
-- What `RtcmMessageDecoder::decode` of src/rtcm_decoder_ntrip.cpp makes of every message that it knows
-- but the observations.
use rtcmbridge.Base.{
  ℕ, ◌^◌, ◌≤◌, ◌<◌, ◌*◌, List, [], ◌∷◌, ◌++◌, ◌≡◌, refl, some, Bytes, length, arith, ap,
  append_assoc,
}
use rtcmbridge.Base.Int.{sub_ℕ}
use rtcmbridge.Rtcm.BitReader.{BitReader}
use rtcmbridge.Rtcm.BitReader.Bits.{to_bits, bits}
use rtcmbridge.Rtcm.Output.{Stream, text, chars, num, int, real, mul, of_ℕ}
use rtcmbridge.Rtcm.Reading.Decodes.{At, get_u-Decodes}
use rtcmbridge.Rtcm.Messages.Station.{
  Station, decode_1005_1006, station_text, antenna_height, scale,
}
use rtcmbridge.Rtcm.Messages.Station.RoundTrip.{station_bits, InRange, read_station-Decodes}
use rtcmbridge.Rtcm.Messages.Descriptors.{Receiver, receiver_text, decode_1007_1008, decode_1033}
use rtcmbridge.Rtcm.Messages.Descriptors.RoundTrip.{
  Antenna, IsText, shown, antenna_bits, serial_bits, antenna_text, decode_1007-antenna_bits,
  decode_1008-serial_bits, two_fields,
}
use rtcmbridge.Rtcm.Messages.Descriptors.Receivers.{
  receiver_bits, shown_receiver, decode_1033-receiver_bits,
}
use rtcmbridge.Rtcm.Messages.Descriptors.Receivers
use rtcmbridge.Rtcm.Messages.Ephemeris.{decode_1019, decode_1020, decode_1045_1046, decode_1230}
use rtcmbridge.Rtcm.Messages.Ephemeris.RoundTrip.{
  Gps, gps_bits, read_gps-Decodes, Glonass, glonass_bits, read_glonass-Decodes, Galileo,
  galileo_bits, read_galileo-Decodes, Bias, bias_bits, read_bias-Decodes,
}
use rtcmbridge.Rtcm.Messages.System.{decode_1013}
use rtcmbridge.Rtcm.Messages.System.RoundTrip.{
  System, system_bits, announcements_bits, read_system-Decodes, read_announcements-Decodes,
}
use rtcmbridge.Rtcm.Decoder.{decode, prologue, dispatch, handlers}
use rtcmbridge.Rtcm.Decoder.Typed.{decode-body}

pub data Message : Type 0 where
  position : Station → Message  -- 1005
  elevated : Station → ℕ → Message  -- 1006
  antenna : Antenna → Message  -- 1007
  antenna_serial : Antenna → Bytes → Message  -- 1008
  system : System → Message  -- 1013
  gps : Gps → Message  -- 1019
  glonass : Glonass → Message  -- 1020
  receiver : Receiver → Message  -- 1033
  galileo_f galileo_i : Galileo → Message  -- 1045, 1046
  bias : Bias → Message  -- 1230

abbrev pub type_of : Message → ℕ
type_of (position _) = 1005
type_of (elevated _ _) = 1006
type_of (antenna _) = 1007
type_of (antenna_serial _ _) = 1008
type_of (system _) = 1013
type_of (gps _) = 1019
type_of (glonass _) = 1020
type_of (receiver _) = 1033
type_of (galileo_f _) = 1045
type_of (galileo_i _) = 1046
type_of (bias _) = 1230

-- The fields are in the ranges of their widths.
abbrev pub Fits : Message → Type 0
Fits (position s) = InRange s
Fits (elevated s h) = InRange s × (h < 2 ^ 16)
Fits (antenna_serial _ serial) = IsText serial
Fits (receiver r) = Receivers.InRange r
Fits _ = Unit

-- The bits behind the type, and then `rest`.
unfoldable pub message_bits : Message → List ℕ → List ℕ
message_bits (position s) rest = station_bits s ++ rest
message_bits (elevated s h) rest = station_bits s ++ (to_bits 16 h ++ rest)
message_bits (antenna a) rest = antenna_bits a rest
message_bits (antenna_serial a serial) rest = serial_bits a serial rest
message_bits (system s) rest = system_bits s ++ (announcements_bits s.announcements ++ rest)
message_bits (gps g) rest = gps_bits g ++ rest
message_bits (glonass g) rest = glonass_bits g ++ rest
message_bits (receiver r) rest = receiver_bits r rest
message_bits (galileo_f g) rest = galileo_bits g ++ rest
message_bits (galileo_i g) rest = galileo_bits g ++ rest
message_bits (bias b) rest = bias_bits b ++ rest

abbrev galileo_text : Galileo → Stream
galileo_text g =
    text " sat=E"
    ∷ num g.sat
    ∷ text " week="
    ∷ num g.week
    ∷ text " iode="
    ∷ num g.iode
    ∷ text " sisa="
    ∷ num g.sisa
    ∷ []

-- What a line says of the message, behind its type and length.
unfoldable pub message_text : Message → Stream
message_text (position s) = station_text s
message_text (elevated s h) = station_text s ++ (text " ant_h=" ∷ real (mul (of_ℕ h) scale) ∷ [])
message_text (antenna a) = antenna_text a
message_text (antenna_serial a serial) =
    antenna_text a ++ (text " serial=\"" ∷ chars (shown serial) ∷ text "\"" ∷ [])
message_text (system s) =
    text " staid="
    ∷ num s.stid
    ∷ text " mjd="
    ∷ num s.mjd
    ∷ text " sod="
    ∷ num s.sod
    ∷ text " announcements="
    ∷ num (length s.announcements)
    ∷ []
message_text (gps g) =
    text " sat=G"
    ∷ num g.sat
    ∷ text " week="
    ∷ num g.week
    ∷ text " ura="
    ∷ num g.ura
    ∷ text " codeL2="
    ∷ num g.code
    ∷ text " iode="
    ∷ num g.iode
    ∷ text " idot_raw="
    ∷ int g.idot
    ∷ []
message_text (glonass g) =
    text " sat=R"
    ∷ num g.sat
    ∷ text " freq_ch="
    ∷ int (sub_ℕ g.freq 7)
    ∷ text " tk="
    ∷ num g.tk_h
    ∷ text ":"
    ∷ num g.tk_m
    ∷ text ":"
    ∷ num (g.tk_s * 30)
    ∷ []
message_text (receiver r) = receiver_text (shown_receiver r)
message_text (galileo_f g) = galileo_text g
message_text (galileo_i g) = galileo_text g
message_text (bias b) =
    text " staid="
    ∷ num b.stid
    ∷ text " code_phase_mask="
    ∷ num b.mask
    ∷ text " ext="
    ∷ num b.ind
    ∷ []

-- The handler of the message writes that.
dispatch-message_bits :
    (m : Message) (rest : List ℕ) (br : BitReader) (oss : Stream)
    → Fits m
    → At br (message_bits m rest)
    → dispatch handlers (type_of m) br oss ≡ some (oss ++ message_text m)
unfolding dispatch message_bits message_text
dispatch-message_bits (position s) rest br oss f at =
    let (br', e, _) = (read_station-Decodes s f).run br rest at in
    unfold decode_1005_1006 in rw (dispatch, e) refl
dispatch-message_bits (elevated s h) rest br oss f at =
    let (br1, e, at1) = (read_station-Decodes s f.0).run br _ at in
    let (br2, u, _) = (get_u-Decodes 16 h (omega arith) f.1).run br1 rest at1 in
    unfold decode_1005_1006 in
    rw (dispatch, e)
      (rw (u, antenna_height)
        (ap some
          (append_assoc oss (station_text s) (text " ant_h=" ∷ real (mul (of_ℕ h) scale) ∷ []))))
dispatch-message_bits (antenna a) rest br oss f at =
    unfold decode_1005_1006 in rw (dispatch, decode_1007-antenna_bits a br rest oss at) refl
dispatch-message_bits (antenna_serial a serial) rest br oss f at =
    unfold decode_1005_1006 in
    rw (dispatch, decode_1008-serial_bits a serial br rest oss f at)
      (ap some (
        append_assoc oss (antenna_text a)
          (text " serial=\"" ∷ chars (shown serial) ∷ text "\"" ∷ [])))
dispatch-message_bits (system s) rest br oss f at =
    let (br1, e, at1) = (read_system-Decodes s).run br _ at in
    let (br2, u, _) = (read_announcements-Decodes s.announcements).run br1 rest at1 in
    unfold decode_1005_1006 decode_1007_1008 decode_1033 decode_1013 in rw (dispatch, e) (rw u refl)
dispatch-message_bits (gps g) rest br oss f at =
    let (br', e, _) = (read_gps-Decodes g).run br rest at in
    unfold decode_1005_1006 decode_1007_1008 decode_1033 decode_1013 decode_1019 in
    rw (dispatch, e) refl
dispatch-message_bits (glonass g) rest br oss f at =
    let (br', e, _) = (read_glonass-Decodes g).run br rest at in
    unfold decode_1005_1006 decode_1007_1008 decode_1033 decode_1013 decode_1019 decode_1020 in
    rw (dispatch, e) refl
dispatch-message_bits (receiver r) rest br oss f at =
    unfold decode_1005_1006 decode_1007_1008 in
    rw (dispatch, decode_1033-receiver_bits r br rest oss f at) refl
dispatch-message_bits (galileo_f g) rest br oss f at =
    let (br', e, _) = (read_galileo-Decodes g).run br rest at in
    unfold decode_1005_1006 decode_1007_1008 decode_1033 decode_1013 decode_1019 decode_1020
      decode_1045_1046 in
    rw (dispatch, e) refl
dispatch-message_bits (galileo_i g) rest br oss f at =
    let (br', e, _) = (read_galileo-Decodes g).run br rest at in
    unfold decode_1005_1006 decode_1007_1008 decode_1033 decode_1013 decode_1019 decode_1020
      decode_1045_1046 in
    rw (dispatch, e) refl
dispatch-message_bits (bias b) rest br oss f at =
    let (br', e, _) = (read_bias-Decodes b).run br rest at in
    unfold decode_1005_1006 decode_1007_1008 decode_1033 decode_1013 decode_1019 decode_1020
      decode_1045_1046 decode_1230 in
    rw (dispatch, e) refl

type_of-lt : (m : Message) → type_of m < 2 ^ 12
type_of-lt (position _) = omega arith
type_of-lt (elevated _ _) = omega arith
type_of-lt (antenna _) = omega arith
type_of-lt (antenna_serial _ _) = omega arith
type_of-lt (system _) = omega arith
type_of-lt (gps _) = omega arith
type_of-lt (glonass _) = omega arith
type_of-lt (receiver _) = omega arith
type_of-lt (galileo_f _) = omega arith
type_of-lt (galileo_i _) = omega arith
type_of-lt (bias _) = omega arith

message_bits-long : (m : Message) (rest : List ℕ) → 4 ≤ length (message_bits m rest)
unfolding message_bits
message_bits-long (position s) rest = unfold station_bits in omega arith
message_bits-long (elevated s h) rest = unfold station_bits in omega arith
message_bits-long (antenna a) rest = unfold antenna_bits two_fields in omega arith
message_bits-long (antenna_serial a serial) rest =
    unfold serial_bits antenna_bits two_fields in omega arith
message_bits-long (system s) rest = unfold system_bits in omega arith
message_bits-long (gps g) rest = unfold gps_bits in omega arith
message_bits-long (glonass g) rest = unfold glonass_bits in omega arith
message_bits-long (receiver r) rest = unfold receiver_bits two_fields in omega arith
message_bits-long (galileo_f g) rest = unfold galileo_bits in omega arith
message_bits-long (galileo_i g) rest = unfold galileo_bits in omega arith
message_bits-long (bias b) rest = unfold bias_bits in omega arith

-- A payload that holds the type and the fields of a message other than an observation, each field in
-- the range of its width and whatever stands behind them, is decoded to the line with the type, the
-- length and exactly those fields; a character that cannot be printed is shown as a dot.
pub decode-message_bits :
    (payload : Bytes) (m : Message) (rest : List ℕ)
    → Fits m
    → bits payload ≡ to_bits 12 (type_of m) ++ message_bits m rest
    → decode payload ≡ prologue (type_of m) (length payload) ++ message_text m
decode-message_bits payload m rest f h =
    decode-body payload (type_of m) (message_bits m rest) _ (type_of-lt m)
      (message_bits-long m rest) h
      (λ br at. dispatch-message_bits m rest br (prologue (type_of m) (length payload)) f at)
