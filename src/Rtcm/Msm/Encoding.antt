-- ===== src/Rtcm/Msm/Encoding.antt =====
-- The bits of an MSM message's header, of a satellite and of a cell, and that `decode_msm` of
-- src/rtcm_decoder_ntrip.cpp reads them.
use rtcmbridge.Base.{
  ℕ, ◌^◌, ◌≤◌, ◌<◌, ◌≡◌, ap, sym, ◌∙◌, List, [], ◌∷◌, ◌++◌, arith, length, All, append-nil,
  if◌then◌else◌,
}
use rtcmbridge.Base.Int.{ℤ}
use rtcmbridge.Rtcm.BitReader.Bits.{to_bits}
use rtcmbridge.Rtcm.BitReader.Fields.{pattern_of, InSigned}
use rtcmbridge.Rtcm.Reading.{return}
use rtcmbridge.Rtcm.Reading.Decodes.{
  Decodes, get_u-Decodes, >>=-Decodes, return-Decodes, skip-Decodes,
}
use rtcmbridge.Rtcm.Msm.Mask.{Header, read_header, popcount, read_cell_mask}
use rtcmbridge.Rtcm.Msm.Bounds.{length-mask_ids}
use rtcmbridge.Rtcm.Msm.Ids.{Rises, mask_of, mask_ids-mask_of}
use rtcmbridge.Rtcm.Msm.Cells.{
  Level, Rough, ObsCell, pr_bits, cp_bits, lock_bits, cnr_bits, read_satellite, read_cell,
}
use rtcmbridge.Rtcm.Msm.Yields.{
  Yields, or_fail-Yields, >>=-Yields, return-Yields, rate_bits, when_rate-Yields, IsWidth,
  if-IsWidth, signed-Decodes,
}

-- The mask of rising ids has as many ones as there are ids.
pub popcount-mask_of :
    (w : ℕ) (ids : List ℕ) → Rises 0 w ids → popcount w (mask_of w ids) ≡ length ids
popcount-mask_of w ids h =
    sym (length-mask_ids w 0 (mask_of w ids)) ∙ ap length (mask_ids-mask_of w ids h)

-- What an encoder announces, with the bits that are reserved.
pub record Announced : Type 0 where
  pub header : Header
  pub reserved : List ℕ
  pub stid_fits : header.stid < 2 ^ 12
  pub tow_fits : header.tow < 2 ^ 30
  pub mm_fits : header.mm < 2 ^ 1
  pub iods_fits : header.iods < 2 ^ 3
  pub reserved_fits : length reserved ≡ 7
  pub clk_steer_fits : header.clk_steer < 2 ^ 2
  pub ext_clk_fits : header.ext_clk < 2 ^ 2
  pub smooth_fits : header.smooth < 2 ^ 1
  pub smooth_int_fits : header.smooth_int < 2 ^ 3
  pub sat_mask_fits : header.sat_mask < 2 ^ 64
  pub sig_mask_fits : header.sig_mask < 2 ^ 32

unfoldable pub header_bits : Announced → List ℕ
header_bits a =
    let h = a.header in
    to_bits 12 h.stid
    ++ (to_bits 30 h.tow
        ++ (to_bits 1 h.mm
            ++ (to_bits 3 h.iods
                ++ (a.reserved
                    ++ (to_bits 2 h.clk_steer
                        ++ (to_bits 2 h.ext_clk
                            ++ (to_bits 1 h.smooth
                                ++ (to_bits 3 h.smooth_int
                                    ++ (to_bits 64 h.sat_mask
                                        ++ (to_bits 32 h.sig_mask ++ []))))))))))

pub read_header-Decodes : (a : Announced) → Decodes read_header (header_bits a) a.header
unfolding read_header header_bits
read_header-Decodes a =
    let h = a.header in
    >>=-Decodes _ (get_u-Decodes 12 h.stid (omega arith) a.stid_fits) (
      >>=-Decodes _ (get_u-Decodes 30 h.tow (omega arith) a.tow_fits) (
        >>=-Decodes _ (get_u-Decodes 1 h.mm (omega arith) a.mm_fits) (
          >>=-Decodes _ (get_u-Decodes 3 h.iods (omega arith) a.iods_fits) (
            >>=-Decodes _ (skip-Decodes 7 a.reserved a.reserved_fits) (
              >>=-Decodes _ (get_u-Decodes 2 h.clk_steer (omega arith) a.clk_steer_fits) (
                >>=-Decodes _ (get_u-Decodes 2 h.ext_clk (omega arith) a.ext_clk_fits) (
                  >>=-Decodes _ (get_u-Decodes 1 h.smooth (omega arith) a.smooth_fits) (
                    >>=-Decodes _ (get_u-Decodes 3 h.smooth_int (omega arith) a.smooth_int_fits) (
                      >>=-Decodes _ (get_u-Decodes 64 h.sat_mask (omega arith) a.sat_mask_fits) (
                        >>=-Decodes _ (get_u-Decodes 32 h.sig_mask (omega arith) a.sig_mask_fits)
                          (return-Decodes _)))))))))))

unfoldable pub flag_bits : List ℕ → List ℕ
flag_bits [] = []
flag_bits (flag ∷ flags) = to_bits 1 flag ++ flag_bits flags

pub read_cell_mask-Decodes :
    (flags : List ℕ)
    → All (λ flag. flag ≤ 1) flags
    → Decodes (read_cell_mask (length flags)) (flag_bits flags) flags
unfolding read_cell_mask flag_bits
read_cell_mask-Decodes [] h = return-Decodes _
read_cell_mask-Decodes (flag ∷ flags) h =
    >>=-Decodes _ (get_u-Decodes 1 flag (omega arith) (omega (arith, h.0))) (
      rw (append-nil (flag_bits flags)) at (
        >>=-Decodes (λ rest. return (flag ∷ rest)) (read_cell_mask-Decodes flags h.1)
          (return-Decodes _)))

-- A satellite's data. `ext` and `rate` are sent only in messages with a phase rate.
pub record Satellite : Type 0 where
  pub whole : ℕ
  pub ext : ℕ
  pub mod_1_1024 : ℕ
  pub rate : ℤ
  pub whole_fits : whole < 2 ^ 8
  pub ext_fits : ext < 2 ^ 4
  pub mod_fits : mod_1_1024 < 2 ^ 10
  pub rate_fits : InSigned 14 rate

module _ (level : Level) where
  unfoldable pub satellite_bits : Satellite → List ℕ
  satellite_bits s =
      to_bits 8 s.whole
      ++ (rate_bits level (to_bits 4 s.ext)
          ++ (to_bits 10 s.mod_1_1024
              ++ (rate_bits level (to_bits 14 (pattern_of 14 s.rate)) ++ [])))

  abbrev pub rough_part : Satellite → Rough
  rough_part s = record { ms_whole = s.whole; mod_1_1024 = s.mod_1_1024 }

  pub read_satellite-Yields :
      (s : Satellite) → Yields (read_satellite level) (satellite_bits s) (rough_part s)
  unfolding read_satellite satellite_bits
  read_satellite-Yields s =
      >>=-Yields _ (or_fail-Yields _ (get_u-Decodes 8 s.whole (omega arith) s.whole_fits)) (
        >>=-Yields _
          (when_rate-Yields level _
            (or_fail-Yields _ (get_u-Decodes 4 s.ext (omega arith) s.ext_fits)))
          (>>=-Yields _ (or_fail-Yields _ (get_u-Decodes 10 s.mod_1_1024 (omega arith) s.mod_fits))
            (>>=-Yields _
              (when_rate-Yields level _ (
                or_fail-Yields _ (signed-Decodes 14 s.rate (omega arith, omega arith) s.rate_fits)))
              (return-Yields _))))

  -- A cell's data, in the widths of the level.
  pub record Cell : Type 0 where
    pub fine_pr : ℤ
    pub fine_cp : ℤ
    pub lock : ℕ
    pub half : ℕ
    pub cnr_raw : ℕ
    pub rate : ℤ
    pub fine_pr_fits : InSigned (pr_bits level) fine_pr
    pub fine_cp_fits : InSigned (cp_bits level) fine_cp
    pub lock_fits : lock < 2 ^ lock_bits level
    pub half_fits : half < 2 ^ 1
    pub cnr_fits : cnr_raw < 2 ^ cnr_bits level
    pub rate_fits : InSigned 15 rate

module _ (level : Level) where
  unfoldable pub cell_bits : Cell level → List ℕ
  cell_bits c =
      to_bits (pr_bits level) (pattern_of (pr_bits level) c.fine_pr)
      ++ (to_bits (cp_bits level) (pattern_of (cp_bits level) c.fine_cp)
          ++ (to_bits (lock_bits level) c.lock
              ++ (to_bits 1 c.half
                  ++ (to_bits (cnr_bits level) c.cnr_raw
                      ++ (rate_bits level (to_bits 15 (pattern_of 15 c.rate)) ++ [])))))

  abbrev pub cell_of : ℕ → ℕ → Cell level → ObsCell
  cell_of si gi c = record {
    sat_idx = si;
    sig_idx = gi;
    fine_pr = c.fine_pr;
    fine_cp = c.fine_cp;
    lock = c.lock;
    half = c.half;
    cnr_raw = c.cnr_raw;
  }

  width : (m n : ℕ) → IsWidth m → IsWidth n → IsWidth (if level.hi_res then m else n)
  width m n h k = if-IsWidth level.hi_res m n h k

  pub read_cell-Yields :
      (si gi : ℕ) (c : Cell level) → Yields (read_cell level si gi) (cell_bits c) (cell_of si gi c)
  unfolding read_cell cell_bits
  read_cell-Yields si gi c =
      let pr : IsWidth (pr_bits level) =
        width 20 15 (omega arith, omega arith) (omega arith, omega arith) in
      let cp : IsWidth (cp_bits level) =
        width 24 22 (omega arith, omega arith) (omega arith, omega arith) in
      let lock : IsWidth (lock_bits level) =
        width 10 4 (omega arith, omega arith) (omega arith, omega arith) in
      let cnr : IsWidth (cnr_bits level) =
        width 10 6 (omega arith, omega arith) (omega arith, omega arith) in
      >>=-Yields _ (or_fail-Yields _ (signed-Decodes (pr_bits level) c.fine_pr pr c.fine_pr_fits)) (
        >>=-Yields _ (or_fail-Yields _ (signed-Decodes (cp_bits level) c.fine_cp cp c.fine_cp_fits))
          (>>=-Yields _
            (or_fail-Yields _
              (get_u-Decodes (lock_bits level) c.lock (omega (arith, lock.1)) c.lock_fits))
            (>>=-Yields _ (or_fail-Yields _ (get_u-Decodes 1 c.half (omega arith) c.half_fits)) (
              >>=-Yields _
                (or_fail-Yields _
                  (get_u-Decodes (cnr_bits level) c.cnr_raw (omega (arith, cnr.1)) c.cnr_fits))
                (>>=-Yields _
                  (when_rate-Yields level _ (
                    or_fail-Yields _
                      (signed-Decodes 15 c.rate (omega arith, omega arith) c.rate_fits)))
                  (return-Yields _))))))
