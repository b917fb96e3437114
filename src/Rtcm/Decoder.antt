-- ===== src/Rtcm/Decoder.antt =====
-- `RtcmMessageDecoder::decode` and `type_name` of src/rtcm_decoder_ntrip.cpp.
pub mod Typed
pub mod Broadcast
pub mod Observed
use rtcmbridge.Base.{
  ℕ, Option, none, some, List, [], ◌∷◌, ◌++◌, ltb, ◌==◌, if◌then◌else◌, String, Bytes, length,
}
use rtcmbridge.Rtcm.BitReader.{bit_reader, get_u}
use rtcmbridge.Rtcm.Output.{text, num, Stream}
use rtcmbridge.Rtcm.Reading.{Handler}
use rtcmbridge.Rtcm.Messages.Station.{decode_1005_1006}
use rtcmbridge.Rtcm.Messages.Descriptors.{decode_1007_1008, decode_1033}
use rtcmbridge.Rtcm.Messages.Ephemeris.{decode_1019, decode_1020, decode_1045_1046, decode_1230}
use rtcmbridge.Rtcm.Messages.System.{decode_1013}
use rtcmbridge.Rtcm.Msm.{decode_msm}

abbrev pub names : List (ℕ × String)
names =
    (1005, "Stationary RTK ARP")
    ∷ (1006, "Stationary RTK ARP + Antenna Height")
    ∷ (1007, "Antenna Descriptor")
    ∷ (1008, "Antenna Descriptor + Serial")
    ∷ (1013, "System Parameters")
    ∷ (1019, "GPS Ephemeris")
    ∷ (1020, "GLONASS Ephemeris")
    ∷ (1033, "Receiver/Antenna Descriptor")
    ∷ (1045, "Galileo F/NAV Ephemeris")
    ∷ (1046, "Galileo I/NAV Ephemeris")
    ∷ (1074, "GPS MSM4")
    ∷ (1075, "GPS MSM5")
    ∷ (1076, "GPS MSM6")
    ∷ (1077, "GPS MSM7")
    ∷ (1084, "GLONASS MSM4")
    ∷ (1085, "GLONASS MSM5")
    ∷ (1086, "GLONASS MSM6")
    ∷ (1087, "GLONASS MSM7")
    ∷ (1094, "Galileo MSM4")
    ∷ (1095, "Galileo MSM5")
    ∷ (1096, "Galileo MSM6")
    ∷ (1097, "Galileo MSM7")
    ∷ (1104, "SBAS MSM4")
    ∷ (1105, "SBAS MSM5")
    ∷ (1106, "SBAS MSM6")
    ∷ (1107, "SBAS MSM7")
    ∷ (1114, "QZSS MSM4")
    ∷ (1115, "QZSS MSM5")
    ∷ (1116, "QZSS MSM6")
    ∷ (1117, "QZSS MSM7")
    ∷ (1124, "BeiDou MSM4")
    ∷ (1125, "BeiDou MSM5")
    ∷ (1126, "BeiDou MSM6")
    ∷ (1127, "BeiDou MSM7")
    ∷ (1230, "GLONASS Code-Phase Bias")
    ∷ []

-- `names.find(t)`
unfoldable pub find_name : ℕ → List (ℕ × String) → Option String
find_name t [] = none
find_name t ((key, name) ∷ rest) = if t == key then some name else find_name t rest

-- `none` is the empty string.
unfoldable pub type_name : ℕ → Option String
unfolding find_name
type_name t = find_name t names

abbrev name_text : Option String → Stream
name_text none = []
name_text (some name) = text " (" ∷ text name ∷ text ")" ∷ []

-- The handlers in the order in which `decode` tries them.
abbrev pub handlers : List Handler
handlers =
    decode_1005_1006 ∷ decode_1007_1008 ∷ decode_1033 ∷ decode_1013 ∷ decode_1019 ∷ decode_1020
    ∷ decode_1045_1046 ∷ decode_1230 ∷ decode_msm ∷ []

-- `if (handler(type, br, oss)) return oss.str(); …; return oss.str();`
unfoldable pub dispatch : List Handler → Handler
dispatch [] type br oss = some oss
dispatch (handler ∷ rest) type br oss = elim (handler type br oss) [
  | none ↦ dispatch rest type br oss
  | some written ↦ some written
]

abbrev pub prologue : ℕ → ℕ → Stream
prologue type len =
    (text "type=" ∷ num type ∷ name_text (type_name type)) ++ (text " len=" ∷ num len ∷ [])

unfoldable pub decode : Bytes → Stream
unfolding dispatch type_name bit_reader
decode payload =
    if ltb (length payload) 2
    then text "payload_too_short" ∷ []
    else elim (get_u 12 (bit_reader payload)) [
      | none ↦ text "cannot_read_message_type" ∷ []
      | some (type, br) ↦
          let head = prologue type (length payload) in
          elim (dispatch handlers type br head) [ none ↦ head | some written ↦ written ]
    ]
