-- ===== src/Rtcm/Msm/Signals.antt =====
-- `constellation_code` and `signal_info` of src/rtcm_decoder_ntrip.cpp. A frequency in Hz is a
-- whole number, and zero where the table has none.
use rtcmbridge.Base.{ℕ, ◌&&◌, ◌||◌, [], ◌∷◌, leb, ltb, ◌==◌, if◌then◌else◌, String}
use rtcmbridge.Rtcm.Output.{text, num, Stream}

unfoldable pub constellation_code : ℕ → ℕ
constellation_code type =
    if leb 1070 type && ltb type 1080
    then b'G'
    else if leb 1080 type && ltb type 1090
    then b'R'
    else if leb 1090 type && ltb type 1100
    then b'E'
    else if leb 1100 type && ltb type 1110
    then b'S'
    else if leb 1110 type && ltb type 1120
    then b'J'
    else if leb 1120 type && ltb type 1130
    then b'C'
    else b'?'

pub record SigInfo : Type 0 where
  pub label : Stream
  pub freq_hz : ℕ

abbrev sig : String → ℕ → SigInfo
sig label freq_hz = record { label = text label ∷ []; freq_hz = freq_hz }

-- `return {"SIG" + std::to_string(sig_id), 0.0};`
abbrev pub unknown_signal : ℕ → SigInfo
unknown_signal sig_id = record { label = text "SIG" ∷ num sig_id ∷ []; freq_hz = 0 }

gps_signal : ℕ → SigInfo
gps_signal id =
    if id == 2 || id == 3
    then sig "L1" 1_575_420_000
    else if id == 8 || id == 9 || id == 10
    then sig "L2" 1_227_600_000
    else if id == 15 || id == 16 || id == 17
    then sig "L5" 1_176_450_000
    else unknown_signal id

glonass_signal : ℕ → SigInfo
glonass_signal id =
    if id == 2
    then sig "G1" 1_602_000_000
    else if id == 8
    then sig "G2" 1_246_000_000
    else if id == 14
    then sig "G3" 1_202_025_000
    else unknown_signal id

galileo_signal : ℕ → SigInfo
galileo_signal id =
    if id == 2
    then sig "E1" 1_575_420_000
    else if id == 8
    then sig "E6" 1_278_750_000
    else if id == 14
    then sig "E5b" 1_207_140_000
    else if id == 16
    then sig "E5a" 1_176_450_000
    else if id == 22
    then sig "E5" 1_191_795_000
    else unknown_signal id

beidou_signal : ℕ → SigInfo
beidou_signal id =
    if id == 2
    then sig "B1" 1_561_098_000
    else if id == 8
    then sig "B3" 1_268_520_000
    else if id == 14
    then sig "B2" 1_207_140_000
    else if id == 16
    then sig "B2a" 1_176_450_000
    else if id == 22
    then sig "B2ab" 1_191_795_000
    else unknown_signal id

qzss_signal : ℕ → SigInfo
qzss_signal id =
    if id == 2
    then sig "L1" 1_575_420_000
    else if id == 8
    then sig "L2" 1_227_600_000
    else if id == 15
    then sig "L5" 1_176_450_000
    else if id == 22
    then sig "L6" 1_278_750_000
    else unknown_signal id

unfoldable pub signal_info : ℕ → ℕ → SigInfo
unfolding gps_signal glonass_signal galileo_signal beidou_signal qzss_signal
signal_info c id =
    if c == b'G'
    then gps_signal id
    else if c == b'R'
    then glonass_signal id
    else if c == b'E'
    then galileo_signal id
    else if c == b'C'
    then beidou_signal id
    else if c == b'J'
    then qzss_signal id
    else unknown_signal id
