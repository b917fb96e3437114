-- ===== src/Rtcm/Messages/Ephemeris/RoundTrip.antt =====
-- The messages 1019, 1020, 1045, 1046 and 1230 are read as they were encoded.
use rtcmbridge.Base.{ℕ, ◌^◌, ◌<◌, List, [], ◌++◌, arith}
use rtcmbridge.Base.Int.{ℤ}
use rtcmbridge.Rtcm.BitReader.Bits.{to_bits}
use rtcmbridge.Rtcm.BitReader.Fields.{pattern_of, InSigned}
use rtcmbridge.Rtcm.Reading.Decodes.{
  Decodes, get_u-Decodes, get_s-Decodes, >>=-Decodes, return-Decodes,
}
use rtcmbridge.Rtcm.Messages.Ephemeris.{read_gps, read_glonass, read_galileo, read_bias}

-- The fields of each message in the order of their reads, each in the range of its width.
pub record Gps : Type 0 where
  pub sat : ℕ
  pub week : ℕ
  pub ura : ℕ
  pub code : ℕ
  pub idot : ℤ
  pub iode : ℕ
  pub sat_fits : sat < 2 ^ 6
  pub week_fits : week < 2 ^ 10
  pub ura_fits : ura < 2 ^ 4
  pub code_fits : code < 2 ^ 2
  pub idot_fits : InSigned 14 idot
  pub iode_fits : iode < 2 ^ 8

unfoldable pub gps_bits : Gps → List ℕ
gps_bits g =
    to_bits 6 g.sat
    ++ (to_bits 10 g.week
        ++ (to_bits 4 g.ura
            ++ (to_bits 2 g.code
                ++ (to_bits 14 (pattern_of 14 g.idot) ++ (to_bits 8 g.iode ++ [])))))

pub read_gps-Decodes :
    (g : Gps) → Decodes read_gps (gps_bits g) (g.sat, g.week, g.ura, g.code, g.idot, g.iode)
unfolding read_gps gps_bits
read_gps-Decodes g = >>=-Decodes _ (get_u-Decodes 6 g.sat (omega arith) g.sat_fits) (
    >>=-Decodes _ (get_u-Decodes 10 g.week (omega arith) g.week_fits) (
      >>=-Decodes _ (get_u-Decodes 4 g.ura (omega arith) g.ura_fits) (
        >>=-Decodes _ (get_u-Decodes 2 g.code (omega arith) g.code_fits) (
          >>=-Decodes _ (get_s-Decodes 13 g.idot (omega arith) g.idot_fits) (
            >>=-Decodes _ (get_u-Decodes 8 g.iode (omega arith) g.iode_fits) (return-Decodes _))))))

pub record Glonass : Type 0 where
  pub sat : ℕ
  pub freq : ℕ
  pub tk_h : ℕ
  pub tk_m : ℕ
  pub tk_s : ℕ
  pub sat_fits : sat < 2 ^ 6
  pub freq_fits : freq < 2 ^ 5
  pub tk_h_fits : tk_h < 2 ^ 5
  pub tk_m_fits : tk_m < 2 ^ 6
  pub tk_s_fits : tk_s < 2 ^ 1

unfoldable pub glonass_bits : Glonass → List ℕ
glonass_bits g =
    to_bits 6 g.sat
    ++ (to_bits 5 g.freq ++ (to_bits 5 g.tk_h ++ (to_bits 6 g.tk_m ++ (to_bits 1 g.tk_s ++ []))))

pub read_glonass-Decodes :
    (g : Glonass) → Decodes read_glonass (glonass_bits g) (g.sat, g.freq, g.tk_h, g.tk_m, g.tk_s)
unfolding read_glonass glonass_bits
read_glonass-Decodes g = >>=-Decodes _ (get_u-Decodes 6 g.sat (omega arith) g.sat_fits) (
    >>=-Decodes _ (get_u-Decodes 5 g.freq (omega arith) g.freq_fits) (
      >>=-Decodes _ (get_u-Decodes 5 g.tk_h (omega arith) g.tk_h_fits) (
        >>=-Decodes _ (get_u-Decodes 6 g.tk_m (omega arith) g.tk_m_fits)
          (>>=-Decodes _ (get_u-Decodes 1 g.tk_s (omega arith) g.tk_s_fits) (return-Decodes _)))))

pub record Galileo : Type 0 where
  pub sat : ℕ
  pub week : ℕ
  pub iode : ℕ
  pub sisa : ℕ
  pub sat_fits : sat < 2 ^ 6
  pub week_fits : week < 2 ^ 12
  pub iode_fits : iode < 2 ^ 10
  pub sisa_fits : sisa < 2 ^ 8

unfoldable pub galileo_bits : Galileo → List ℕ
galileo_bits g =
    to_bits 6 g.sat ++ (to_bits 12 g.week ++ (to_bits 10 g.iode ++ (to_bits 8 g.sisa ++ [])))

pub read_galileo-Decodes :
    (g : Galileo) → Decodes read_galileo (galileo_bits g) (g.sat, g.week, g.iode, g.sisa)
unfolding read_galileo galileo_bits
read_galileo-Decodes g = >>=-Decodes _ (get_u-Decodes 6 g.sat (omega arith) g.sat_fits) (
    >>=-Decodes _ (get_u-Decodes 12 g.week (omega arith) g.week_fits) (
      >>=-Decodes _ (get_u-Decodes 10 g.iode (omega arith) g.iode_fits)
        (>>=-Decodes _ (get_u-Decodes 8 g.sisa (omega arith) g.sisa_fits) (return-Decodes _))))

pub record Bias : Type 0 where
  pub stid : ℕ
  pub ind : ℕ
  pub mask : ℕ
  pub stid_fits : stid < 2 ^ 12
  pub ind_fits : ind < 2 ^ 1
  pub mask_fits : mask < 2 ^ 3

unfoldable pub bias_bits : Bias → List ℕ
bias_bits b = to_bits 12 b.stid ++ (to_bits 1 b.ind ++ (to_bits 3 b.mask ++ []))

pub read_bias-Decodes : (b : Bias) → Decodes read_bias (bias_bits b) (b.stid, b.ind, b.mask)
unfolding read_bias bias_bits
read_bias-Decodes b = >>=-Decodes _ (get_u-Decodes 12 b.stid (omega arith) b.stid_fits) (
    >>=-Decodes _ (get_u-Decodes 1 b.ind (omega arith) b.ind_fits)
      (>>=-Decodes _ (get_u-Decodes 3 b.mask (omega arith) b.mask_fits) (return-Decodes _)))
