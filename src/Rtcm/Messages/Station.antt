-- ===== src/Rtcm/Messages/Station.antt =====
-- `decode_1005_1006` of src/rtcm_decoder_ntrip.cpp: the station position.
pub mod RoundTrip
use rtcmbridge.Base.{ℕ, not, ◌&&◌, none, some, [], ◌∷◌, ◌++◌, ◌==◌, if◌then◌else◌}
use rtcmbridge.Base.Int.{ℤ}
use rtcmbridge.Rtcm.BitReader.{BitReader, get_u, get_s}
use rtcmbridge.Rtcm.Output.{Real, of_ℕ, of_ℤ, decimal, mul, text, num, real, Stream}
use rtcmbridge.Rtcm.Reading.{Handler, Read, ◌>>=◌, return}

-- The fields of 1005 and 1006 in the order of their reads.
pub record Station : Type 0 where
  pub stid : ℕ
  pub itrf : ℕ
  pub gps : ℕ
  pub glo : ℕ
  pub gal : ℕ
  pub ref : ℕ
  pub x : ℤ
  pub single : ℕ
  pub reserved : ℕ
  pub y : ℤ
  pub quarter : ℕ
  pub z : ℤ

unfoldable pub read_station : Read Station
read_station = do
  stid ← get_u 12
  itrf ← get_u 6
  gps ← get_u 1
  glo ← get_u 1
  gal ← get_u 1
  ref ← get_u 1
  x ← get_s 38
  single ← get_u 1
  reserved ← get_u 1
  y ← get_s 38
  quarter ← get_u 2
  z ← get_s 38
  return (record {
    stid = stid;
    itrf = itrf;
    gps = gps;
    glo = glo;
    gal = gal;
    ref = ref;
    x = x;
    single = single;
    reserved = reserved;
    y = y;
    quarter = quarter;
    z = z;
  })

abbrev pub scale : Real
scale = decimal 1 4

abbrev pub station_text : Station → Stream
station_text s =
    text " staid="
    ∷ num s.stid
    ∷ text " itrf="
    ∷ num s.itrf
    ∷ text " x="
    ∷ real (mul (of_ℤ s.x) scale)
    ∷ text " y="
    ∷ real (mul (of_ℤ s.y) scale)
    ∷ text " z="
    ∷ real (mul (of_ℤ s.z) scale)
    ∷ text " gps="
    ∷ num s.gps
    ∷ text " glo="
    ∷ num s.glo
    ∷ text " gal="
    ∷ num s.gal
    ∷ []

-- What 1006 adds.
unfoldable pub antenna_height : BitReader → Stream → Stream
antenna_height br oss = elim (get_u 16 br) [
  | none ↦ oss ++ (text " decode_error=missing_antenna_height" ∷ [])
  | some (h, _) ↦ oss ++ (text " ant_h=" ∷ real (mul (of_ℕ h) scale) ∷ [])
]

unfoldable pub decode_1005_1006 : Handler
unfolding antenna_height
decode_1005_1006 type br oss =
    if not (type == 1005) && not (type == 1006) then none else elim (read_station br) [
      | none ↦ some (oss ++ (text " decode_error=invalid_1005_1006" ∷ []))
      | some (s, br') ↦
          let oss' = oss ++ station_text s in
          if type == 1006 then some (antenna_height br' oss') else some oss'
    ]
