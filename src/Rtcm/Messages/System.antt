-- ===== src/Rtcm/Messages/System.antt =====
-- `decode_1013` of src/rtcm_decoder_ntrip.cpp: system parameters and announcements.
pub mod RoundTrip
use rtcmbridge.Base.{ℕ, zero, suc, not, none, some, [], ◌∷◌, ◌++◌, ◌==◌, if◌then◌else◌}
use rtcmbridge.Rtcm.BitReader.{get_u}
use rtcmbridge.Rtcm.Output.{text, num}
use rtcmbridge.Rtcm.Reading.{Handler, Read, ◌>>=◌, ◌>>◌, return}

-- 1013: stid, mjd, sod, nmsg.
unfoldable pub read_system : Read (ℕ × ℕ × ℕ × ℕ)
read_system = do
  stid ← get_u 12
  mjd ← get_u 16
  sod ← get_u 17
  nmsg ← get_u 5
  return (stid, mjd, sod, nmsg)

-- One announcement: msg, sync, interval.
unfoldable pub read_announcement : Read (Unit {0})
read_announcement = do msg ← get_u 12; sync ← get_u 1; interval ← get_u 16; return tt

-- The loop over the announcements, by those left.
unfoldable pub read_announcements : ℕ → Read (Unit {0})
read_announcements zero = return tt
read_announcements (suc n) = do read_announcement; read_announcements n

unfoldable pub decode_1013 : Handler
decode_1013 type br oss = if not (type == 1013) then none else elim (read_system br) [
  | none ↦ some (oss ++ (text " decode_error=invalid_1013" ∷ []))
  | some ((stid, mjd, sod, nmsg), br') ↦
      let oss' =
        oss
        ++ (text " staid="
            ∷ num stid
            ∷ text " mjd="
            ∷ num mjd
            ∷ text " sod="
            ∷ num sod
            ∷ text " announcements="
            ∷ num nmsg
            ∷ []) in
      elim (read_announcements nmsg br') [
        | none ↦ some (oss' ++ (text " decode_error=truncated_1013_announcements" ∷ []))
        | some _ ↦ some oss'
      ]
]
