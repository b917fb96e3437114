-- ===== src/Rtcm/Msm/Epoch.antt =====
-- A whole MSM message, as an encoder writes it for `decode_msm` of src/rtcm_decoder_ntrip.cpp.
use mathlib.Core.Path.{subst}
use rtcmbridge.Base.{ℕ, ◌*◌, ◌≡◌, refl, ap, sym, ◌∙◌, List, [], ◌++◌, arith, length, All, map}
use rtcmbridge.Rtcm.Msm.{read_msm}
use rtcmbridge.Rtcm.Msm.Mask.{popcount, mask_ids}
use rtcmbridge.Rtcm.Msm.Report.{Observations}
use rtcmbridge.Rtcm.Msm.Ids.{Rises, mask_of, mask_ids-mask_of}
use rtcmbridge.Rtcm.Msm.Cells.{Level}
use rtcmbridge.Rtcm.Msm.Yields.{Yields, or_fail-Yields, >>=-Yields, return-Yields}
use rtcmbridge.Rtcm.Msm.Encoding.{
  popcount-mask_of, Announced, header_bits, read_header-Decodes, flag_bits, read_cell_mask-Decodes,
  Satellite, rough_part,
}
use rtcmbridge.Rtcm.Msm.RoundTrip.{
  satellites_bits, read_rough-Yields, Row, all_flags, rows_bits, rows_cells, length-all_flags,
  all_flags-All, read_cells-Yields,
}

-- The ids of the satellites and of the signals, the data of each satellite, and for each satellite a
-- place for each signal.
pub record Epoch (level : Level) : Type 0 where
  pub announced : Announced
  pub sats : List ℕ
  pub sigs : List ℕ
  pub satellites : List Satellite
  pub rows : List (Row level)
  pub sats_rise : Rises 0 64 sats
  pub sigs_rise : Rises 0 32 sigs
  pub sat_mask : announced.header.sat_mask ≡ mask_of 64 sats
  pub sig_mask : announced.header.sig_mask ≡ mask_of 32 sigs
  pub one_satellite : length satellites ≡ length sats
  pub one_row : length rows ≡ length sats
  pub one_place : All (λ row. length row ≡ length sigs) rows

module _ (level : Level) where
  -- Satellite by satellite and cell by cell, all fields of one before those of the next.
  unfoldable pub epoch_bits : Epoch level → List ℕ
  epoch_bits e =
      header_bits e.announced
      ++ (flag_bits (all_flags level e.rows)
          ++ (satellites_bits level e.satellites ++ (rows_bits level e.rows ++ [])))

  unfoldable pub observed : Epoch level → Observations
  observed e = record {
    header = e.announced.header;
    nsat = length e.sats;
    nsig = length e.sigs;
    sat_ids = e.sats;
    sig_ids = e.sigs;
    present = all_flags level e.rows;
    rough = map (rough_part level) e.satellites;
    cells = rows_cells level 0 e.rows;
  }

  -- `observed`, with the counts and ids as `decode_msm` computes them.
  counted :
      (e : Epoch level)
      → let h = e.announced.header in
        observed e ≡ record {
          header = h;
          nsat = popcount 64 h.sat_mask;
          nsig = popcount 32 h.sig_mask;
          sat_ids = mask_ids 64 0 h.sat_mask;
          sig_ids = mask_ids 32 0 h.sig_mask;
          present = all_flags level e.rows;
          rough = map (rough_part level) e.satellites;
          cells = rows_cells level 0 e.rows;
        }
  unfolding observed
  counted e =
      rw
        (
          e.sat_mask,
          e.sig_mask,
          popcount-mask_of 64 e.sats e.sats_rise,
          popcount-mask_of 32 e.sigs e.sigs_rise,
          mask_ids-mask_of 64 e.sats e.sats_rise,
          mask_ids-mask_of 32 e.sigs e.sigs_rise,
        )
        refl

  pub read_msm-epoch_bits : (e : Epoch level) → Yields (read_msm level) (epoch_bits e) (observed e)
  unfolding read_msm epoch_bits
  read_msm-epoch_bits e =
      let h = e.announced.header in
      let nsat : length e.sats ≡ popcount 64 h.sat_mask =
        sym (ap (popcount 64) e.sat_mask ∙ popcount-mask_of 64 e.sats e.sats_rise) in
      let nsig : length e.sigs ≡ popcount 32 h.sig_mask =
        sym (ap (popcount 32) e.sig_mask ∙ popcount-mask_of 32 e.sigs e.sigs_rise) in
      let fs = all_flags level e.rows in
      let start : 0 * length e.sigs ≡ 0 = omega arith in
      let mask_read =
        rw (length-all_flags level (length e.sigs) e.rows e.one_place, e.one_row, nsat, nsig) at
          (read_cell_mask-Decodes fs (all_flags-All level e.rows)) in
      let rough_read = rw (e.one_satellite, nsat) at (read_rough-Yields level e.satellites) in
      let cells_read =
        rw (e.one_row, nsat, nsig) at
          (read_cells-Yields level fs (length e.sigs) e.rows 0 e.one_place (rw start refl)) in
      subst (λ o. Yields (read_msm level) (epoch_bits e) o) (sym (counted e))
        (>>=-Yields _ (or_fail-Yields _ (read_header-Decodes e.announced)) (
          >>=-Yields _ (or_fail-Yields _ mask_read)
            (>>=-Yields _ rough_read (>>=-Yields _ cells_read (return-Yields _)))))
