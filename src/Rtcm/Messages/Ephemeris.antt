-- ===== src/Rtcm/Messages/Ephemeris.antt =====
-- `decode_1019`, `decode_1020`, `decode_1045_1046` and `decode_1230` of src/rtcm_decoder_ntrip.cpp.
pub mod RoundTrip
use rtcmbridge.Base.{ℕ, ◌*◌, not, ◌&&◌, none, some, [], ◌∷◌, ◌++◌, ◌==◌, if◌then◌else◌}
use rtcmbridge.Base.Int.{ℤ, sub_ℕ}
use rtcmbridge.Rtcm.BitReader.{get_u, get_s}
use rtcmbridge.Rtcm.Output.{text, num, int}
use rtcmbridge.Rtcm.Reading.{Handler, Read, ◌>>=◌, return}

-- 1019: sat, week, ura, code, idot, iode.
unfoldable pub read_gps : Read (ℕ × ℕ × ℕ × ℕ × ℤ × ℕ)
read_gps = do
  sat ← get_u 6
  week ← get_u 10
  ura ← get_u 4
  code ← get_u 2
  idot ← get_s 14
  iode ← get_u 8
  return (sat, week, ura, code, idot, iode)

unfoldable pub decode_1019 : Handler
decode_1019 type br oss = if not (type == 1019) then none else elim (read_gps br) [
  | none ↦ some (oss ++ (text " decode_error=invalid_1019" ∷ []))
  | some ((sat, week, ura, code, idot, iode), _) ↦ some (
      oss
      ++ (text " sat=G"
          ∷ num sat
          ∷ text " week="
          ∷ num week
          ∷ text " ura="
          ∷ num ura
          ∷ text " codeL2="
          ∷ num code
          ∷ text " iode="
          ∷ num iode
          ∷ text " idot_raw="
          ∷ int idot
          ∷ []))
]

-- 1020: sat, freq, tk_h, tk_m, tk_s.
unfoldable pub read_glonass : Read (ℕ × ℕ × ℕ × ℕ × ℕ)
read_glonass = do
  sat ← get_u 6
  freq ← get_u 5
  tk_h ← get_u 5
  tk_m ← get_u 6
  tk_s ← get_u 1
  return (sat, freq, tk_h, tk_m, tk_s)

unfoldable pub decode_1020 : Handler
decode_1020 type br oss = if not (type == 1020) then none else elim (read_glonass br) [
  | none ↦ some (oss ++ (text " decode_error=invalid_1020" ∷ []))
  | some ((sat, freq, tk_h, tk_m, tk_s), _) ↦ some (
      oss
      ++ (text " sat=R"
          ∷ num sat
          ∷ text " freq_ch="
          ∷ int (sub_ℕ freq 7)
          ∷ text " tk="
          ∷ num tk_h
          ∷ text ":"
          ∷ num tk_m
          ∷ text ":"
          ∷ num (tk_s * 30)
          ∷ []))
]

-- 1045 and 1046: sat, week, iode, sisa.
unfoldable pub read_galileo : Read (ℕ × ℕ × ℕ × ℕ)
read_galileo = do
  sat ← get_u 6
  week ← get_u 12
  iode ← get_u 10
  sisa ← get_u 8
  return (sat, week, iode, sisa)

unfoldable pub decode_1045_1046 : Handler
decode_1045_1046 type br oss =
    if not (type == 1045) && not (type == 1046) then none else elim (read_galileo br) [
      | none ↦ some (oss ++ (text " decode_error=invalid_1045_1046" ∷ []))
      | some ((sat, week, iode, sisa), _) ↦ some (
          oss
          ++ (text " sat=E"
              ∷ num sat
              ∷ text " week="
              ∷ num week
              ∷ text " iode="
              ∷ num iode
              ∷ text " sisa="
              ∷ num sisa
              ∷ []))
    ]

-- 1230: stid, ind, mask.
unfoldable pub read_bias : Read (ℕ × ℕ × ℕ)
read_bias = do stid ← get_u 12; ind ← get_u 1; mask ← get_u 3; return (stid, ind, mask)

unfoldable pub decode_1230 : Handler
decode_1230 type br oss = if not (type == 1230) then none else elim (read_bias br) [
  | none ↦ some (oss ++ (text " decode_error=invalid_1230" ∷ []))
  | some ((stid, ind, mask), _) ↦ some (
      oss
      ++ (text " staid="
          ∷ num stid
          ∷ text " code_phase_mask="
          ∷ num mask
          ∷ text " ext="
          ∷ num ind
          ∷ []))
]
