-- ===== src/Rtcm/Messages/Descriptors.antt =====
-- `decode_1007_1008` and `decode_1033` of src/rtcm_decoder_ntrip.cpp: antenna and receiver names.
pub mod RoundTrip
pub mod Receivers
use rtcmbridge.Base.{ℕ, not, ◌&&◌, none, some, [], ◌∷◌, ◌++◌, ◌==◌, String, if◌then◌else◌, Bytes}
use rtcmbridge.Rtcm.BitReader.{BitReader, get_u}
use rtcmbridge.Rtcm.Output.{text, chars, num, Stream}
use rtcmbridge.Rtcm.Reading.{Handler, Read, ◌>>=◌, return, read_ascii}

unfoldable pub read_descriptor : Read (ℕ × ℕ)
read_descriptor = do stid ← get_u 12; n ← get_u 8; return (stid, n)

unfoldable pub antenna_serial : BitReader → Stream → Stream
antenna_serial br oss = elim (get_u 8 br) [
  | none ↦ oss ++ (text " decode_error=missing_serial_length" ∷ [])
  | some (nser, br') ↦ oss ++ (text " serial=\"" ∷ chars (read_ascii nser br').0 ∷ text "\"" ∷ [])
]

unfoldable pub antenna_setup : ℕ → ℕ → Bytes × BitReader → Stream → Stream
unfolding antenna_serial
antenna_setup type stid (desc, br) oss = elim (get_u 8 br) [
  | none ↦ oss ++ (text " decode_error=missing_setup_id" ∷ [])
  | some (setup, br') ↦
      let oss' =
        oss
        ++ (text " staid="
            ∷ num stid
            ∷ text " ant=\""
            ∷ chars desc
            ∷ text "\" setup="
            ∷ num setup
            ∷ []) in
      if type == 1008 then antenna_serial br' oss' else oss'
]

unfoldable pub decode_1007_1008 : Handler
unfolding antenna_setup
decode_1007_1008 type br oss =
    if not (type == 1007) && not (type == 1008) then none else elim (read_descriptor br) [
      | none ↦ some (oss ++ (text " decode_error=invalid_1007_1008" ∷ []))
      | some ((stid, ndesc), br') ↦ some (antenna_setup type stid (read_ascii ndesc br') oss)
    ]

-- 1033: the five texts and the numbers between them.
pub record Receiver : Type 0 where
  pub stid : ℕ
  pub ant_desc : Bytes
  pub setup : ℕ
  pub ant_sn : Bytes
  pub rx_type : Bytes
  pub rx_fw : Bytes
  pub rx_sn : Bytes

abbrev pub receiver_text : Receiver → Stream
receiver_text r =
    text " staid="
    ∷ num r.stid
    ∷ text " ant=\""
    ∷ chars r.ant_desc
    ∷ text "\""
    ∷ text " ant_sn=\""
    ∷ chars r.ant_sn
    ∷ text "\""
    ∷ text " rx=\""
    ∷ chars r.rx_type
    ∷ text "\""
    ∷ text " fw=\""
    ∷ chars r.rx_fw
    ∷ text "\""
    ∷ text " rx_sn=\""
    ∷ chars r.rx_sn
    ∷ text "\""
    ∷ text " setup="
    ∷ num r.setup
    ∷ []

abbrev pub fail_with : String → Stream → Stream
fail_with message oss = oss ++ (text message ∷ [])

unfoldable pub receiver_sn : Receiver → BitReader → Stream → Stream
receiver_sn r br oss = elim (get_u 8 br) [
  | none ↦ fail_with " decode_error=invalid_1033_rx_sn" oss
  | some (n, br') ↦
      let (rx_sn, _) = read_ascii n br' in oss ++ receiver_text (record r { rx_sn = rx_sn })
]

unfoldable pub receiver_fw : Receiver → BitReader → Stream → Stream
unfolding receiver_sn
receiver_fw r br oss = elim (get_u 8 br) [
  | none ↦ fail_with " decode_error=invalid_1033_rx_fw" oss
  | some (n, br') ↦
      let (rx_fw, next) = read_ascii n br' in receiver_sn (record r { rx_fw = rx_fw }) next oss
]

unfoldable pub receiver_type : Receiver → BitReader → Stream → Stream
unfolding receiver_fw
receiver_type r br oss = elim (get_u 8 br) [
  | none ↦ fail_with " decode_error=invalid_1033_rx_type" oss
  | some (n, br') ↦
      let (rx_type, next) = read_ascii n br' in
      receiver_fw (record r { rx_type = rx_type }) next oss
]

unfoldable pub read_setup : Read (ℕ × ℕ)
read_setup = do setup ← get_u 8; n_ant_sn ← get_u 8; return (setup, n_ant_sn)

unfoldable pub receiver_setup : ℕ → Bytes × BitReader → Stream → Stream
unfolding read_setup receiver_type
receiver_setup stid (desc, br) oss = elim (read_setup br) [
  | none ↦ fail_with " decode_error=invalid_1033_fields" oss
  | some ((setup, n), br') ↦
      let (ant_sn, next) = read_ascii n br' in
      receiver_type
        (record {
          stid = stid;
          ant_desc = desc;
          setup = setup;
          ant_sn = ant_sn;
          rx_type = [];
          rx_fw = [];
          rx_sn = [];
        })
        next oss
]

unfoldable pub decode_1033 : Handler
unfolding read_descriptor receiver_setup
decode_1033 type br oss = if not (type == 1033) then none else elim (read_descriptor br) [
  | none ↦ some (fail_with " decode_error=invalid_1033" oss)
  | some ((stid, n), br') ↦ some (receiver_setup stid (read_ascii n br') oss)
]
