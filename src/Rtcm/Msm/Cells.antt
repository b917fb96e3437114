-- ===== src/Rtcm/Msm/Cells.antt =====
-- The satellite and the cell blocks of an MSM message: `decode_msm` of src/rtcm_decoder_ntrip.cpp.
use rtcmbridge.Base.{ℕ, zero, suc, ◌+◌, ◌*◌, Bool, List, [], ◌∷◌, ◌++◌, ◌==◌, if◌then◌else◌, get_or}
use rtcmbridge.Base.Int.{ℤ, pos}
use rtcmbridge.Rtcm.BitReader.{get_u, get_s}
use rtcmbridge.Rtcm.Attempt.{Attempt, ◌>>=◌, return, or_fail}

pub record Level : Type 0 where
  pub hi_res : Bool
  pub with_phase_rate : Bool

-- `rough_ms_whole[i]` and `rough_mod_1_1024[i]`.
pub record Rough : Type 0 where
  pub ms_whole : ℕ
  pub mod_1_1024 : ℕ

-- A read that only messages with a phase rate have.
abbrev pub when_rate : {A : Type 0} → Level → A → Attempt A → Attempt A
when_rate level unread read = if level.with_phase_rate then read else return unread

unfoldable pub read_satellite : Level → Attempt Rough
read_satellite level = do
  whole ← or_fail (get_u 8) " decode_error=truncated_msm_sat_data"
  ext ← when_rate level whole (or_fail (get_u 4) " decode_error=truncated_msm_sat_ext_info")
  rough_mod ← or_fail (get_u 10) " decode_error=truncated_msm_rough_range_mod"
  rate ← when_rate level (pos 0) (or_fail (get_s 14) " decode_error=truncated_msm_rate")
  return (record { ms_whole = whole; mod_1_1024 = rough_mod })

-- The loop over the satellites, by those left.
unfoldable pub read_rough : Level → ℕ → Attempt (List Rough)
unfolding read_satellite
read_rough level zero = return []
read_rough level (suc nsat) = do
  sat ← read_satellite level
  rest ← read_rough level nsat
  return (sat ∷ rest)

pub record ObsCell : Type 0 where
  pub sat_idx : ℕ
  pub sig_idx : ℕ
  pub fine_pr : ℤ
  pub fine_cp : ℤ
  pub lock : ℕ
  pub half : ℕ
  pub cnr_raw : ℕ

abbrev pub pr_bits : Level → ℕ
pr_bits level = if level.hi_res then 20 else 15

abbrev pub cp_bits : Level → ℕ
cp_bits level = if level.hi_res then 24 else 22

abbrev pub lock_bits : Level → ℕ
lock_bits level = if level.hi_res then 10 else 4

abbrev pub cnr_bits : Level → ℕ
cnr_bits level = if level.hi_res then 10 else 6

-- The body of the inner loop, at a cell that is present.
unfoldable pub read_cell : Level → ℕ → ℕ → Attempt ObsCell
read_cell level si gi = do
  fine_pr ← or_fail (get_s (pr_bits level)) " decode_error=truncated_msm_cell_data"
  fine_cp ← or_fail (get_s (cp_bits level)) " decode_error=truncated_msm_cell_data"
  lock ← or_fail (get_u (lock_bits level)) " decode_error=truncated_msm_cell_data"
  half ← or_fail (get_u 1) " decode_error=truncated_msm_cell_data"
  cnr_raw ← or_fail (get_u (cnr_bits level)) " decode_error=truncated_msm_cell_data"
  rate ← when_rate level (pos 0) (or_fail (get_s 15) " decode_error=truncated_msm_phase_rate")
  return (record {
    sat_idx = si;
    sig_idx = gi;
    fine_pr = fine_pr;
    fine_cp = fine_cp;
    lock = lock;
    half = half;
    cnr_raw = cnr_raw;
  })

-- The inner loop, over the signals of satellite `si`: `left` of them, from `gi`.
unfoldable pub read_row : Level → List ℕ → ℕ → ℕ → ℕ → ℕ → Attempt (List ObsCell)
unfolding read_cell
read_row level present nsig si zero gi = return []
read_row level present nsig si (suc left) gi =
    let rest = read_row level present nsig si left (gi + 1) in
    if get_or present (si * nsig + gi) 0 == 0
    then rest
    else do cell ← read_cell level si gi; cells ← rest; return (cell ∷ cells)

-- The outer loop: `left` satellites, from `si`.
unfoldable pub read_cells : Level → List ℕ → ℕ → ℕ → ℕ → Attempt (List ObsCell)
unfolding read_row
read_cells level present nsig zero si = return []
read_cells level present nsig (suc left) si = do
  row ← read_row level present nsig si nsig 0
  rest ← read_cells level present nsig left (si + 1)
  return (row ++ rest)
