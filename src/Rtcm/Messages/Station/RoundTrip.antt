-- ===== src/Rtcm/Messages/Station/RoundTrip.antt =====
-- A station description, messages 1005 and 1006, is read as it was encoded.
use rtcmbridge.Base.{ℕ, ◌^◌, ◌<◌, List, [], ◌++◌, arith}
use rtcmbridge.Rtcm.BitReader.Bits.{to_bits}
use rtcmbridge.Rtcm.BitReader.Fields.{pattern_of, InSigned}
use rtcmbridge.Rtcm.Reading.Decodes.{
  Decodes, get_u-Decodes, get_s-Decodes, >>=-Decodes, return-Decodes,
}
use rtcmbridge.Rtcm.Messages.Station.{Station, read_station}

-- The bits of a station description, in the order of its fields.
unfoldable pub station_bits : Station → List ℕ
station_bits s =
    to_bits 12 s.stid
    ++ (to_bits 6 s.itrf
        ++ (to_bits 1 s.gps
            ++ (to_bits 1 s.glo
                ++ (to_bits 1 s.gal
                    ++ (to_bits 1 s.ref
                        ++ (to_bits 38 (pattern_of 38 s.x)
                            ++ (to_bits 1 s.single
                                ++ (to_bits 1 s.reserved
                                    ++ (to_bits 38 (pattern_of 38 s.y)
                                        ++ (to_bits 2 s.quarter
                                            ++ (to_bits 38 (pattern_of 38 s.z) ++ [])))))))))))

-- Each field is in the range of its width.
pub record InRange (s : Station) : Type 0 where
  pub stid : s.stid < 2 ^ 12
  pub itrf : s.itrf < 2 ^ 6
  pub gps : s.gps < 2
  pub glo : s.glo < 2
  pub gal : s.gal < 2
  pub ref : s.ref < 2
  pub x : InSigned 38 s.x
  pub single : s.single < 2
  pub reserved : s.reserved < 2
  pub y : InSigned 38 s.y
  pub quarter : s.quarter < 4
  pub z : InSigned 38 s.z

-- A station description whose fields are in range is read as it was encoded, wherever it stands.
pub read_station-Decodes : (s : Station) → InRange s → Decodes read_station (station_bits s) s
unfolding read_station station_bits
read_station-Decodes s r = >>=-Decodes _ (get_u-Decodes 12 s.stid (omega arith) r.stid) (
    >>=-Decodes _ (get_u-Decodes 6 s.itrf (omega arith) r.itrf) (
      >>=-Decodes _ (get_u-Decodes 1 s.gps (omega arith) r.gps) (
        >>=-Decodes _ (get_u-Decodes 1 s.glo (omega arith) r.glo) (
          >>=-Decodes _ (get_u-Decodes 1 s.gal (omega arith) r.gal) (
            >>=-Decodes _ (get_u-Decodes 1 s.ref (omega arith) r.ref) (
              >>=-Decodes _ (get_s-Decodes 37 s.x (omega arith) r.x) (
                >>=-Decodes _ (get_u-Decodes 1 s.single (omega arith) r.single) (
                  >>=-Decodes _ (get_u-Decodes 1 s.reserved (omega arith) r.reserved) (
                    >>=-Decodes _ (get_s-Decodes 37 s.y (omega arith) r.y) (
                      >>=-Decodes _ (get_u-Decodes 2 s.quarter (omega arith) r.quarter) (
                        >>=-Decodes _ (get_s-Decodes 37 s.z (omega arith) r.z)
                          (return-Decodes s))))))))))))
