-- ===== src/Rtcm/Msm.antt =====
-- `decode_msm` of src/rtcm_decoder_ntrip.cpp: MSM messages of the levels 4 to 7.
pub mod Signals
pub mod Mask
pub mod Cells
pub mod Report
pub mod Ends
pub mod Bounds
pub mod Ids
pub mod Yields
pub mod Encoding
pub mod RoundTrip
pub mod Epoch
use rtcmbridge.Base.{
  ℕ, ◌%◌, Bool, ◌||◌, Option, none, some, List, [], ◌∷◌, ◌++◌, ltb, ◌==◌, if◌then◌else◌, length,
  String, ◌*◌, take,
}
use rtcmbridge.Rtcm.BitReader.{BitReader}
use rtcmbridge.Rtcm.Output.{text, Stream}
use rtcmbridge.Rtcm.Reading.{Handler}
use rtcmbridge.Rtcm.Attempt.{Outcome, failed, done, Attempt, ◌>>=◌, return, or_fail}
use Signals.{constellation_code}
use Mask.{Header, read_header, popcount, mask_ids, read_cell_mask}
use Cells.{Level, Rough, ObsCell, read_rough, read_cells}
use Report.{Observations, header_text, cells_text}

abbrev pub level_of : ℕ → Level
level_of type =
    let level = type % 10 in
    record { hi_res = level == 6 || level == 7; with_phase_rate = level == 5 || level == 7 }

-- The reads of the whole message, in order.
unfoldable pub read_msm : Level → Attempt Observations
unfolding read_header popcount mask_ids read_cell_mask read_rough read_cells
read_msm level = do
  header ← or_fail read_header " decode_error=invalid_msm_header"
  let nsat = popcount 64 header.sat_mask
  let nsig = popcount 32 header.sig_mask
  present ← or_fail (read_cell_mask (nsat * nsig)) " decode_error=invalid_msm_cell_mask"
  rough ← read_rough level nsat
  cells ← read_cells level present nsig nsat 0
  return (record {
    header = header;
    nsat = nsat;
    nsig = nsig;
    sat_ids = mask_ids 64 0 header.sat_mask;
    sig_ids = mask_ids 32 0 header.sig_mask;
    present = present;
    rough = rough;
    cells = cells;
  })

unfoldable pub decode_msm : Handler
unfolding constellation_code read_msm header_text cells_text
decode_msm type br oss =
    if ltb type 1071 || ltb 1127 type
    then none
    else if ltb (type % 10) 4 || ltb 7 (type % 10)
    then none
    else elim (read_msm (level_of type) br) [
      | failed message ↦ some (oss ++ (text message ∷ []))
      | done m _ ↦
          some (oss ++ header_text m ++ cells_text (level_of type) (constellation_code type) m)
    ]
