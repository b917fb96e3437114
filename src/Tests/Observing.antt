-- ===== src/Tests/Observing.antt =====
-- `decode_msm` of src/rtcm_decoder_ntrip.cpp on a message with one cell.
use rtcmbridge.Base.{ℕ, ◌+◌, ◌<◌, ◌++◌, none, some, ◌^◌, ◌≡◌, refl, [], ◌∷◌, arith, Bytes}
use rtcmbridge.Base.Int.{pos, negsuc}
use rtcmbridge.Rtcm.BitReader.{BitReader, get_u, get_s, skip}
use rtcmbridge.Rtcm.Attempt.{done}
use rtcmbridge.Rtcm.Msm.Ids.{id_bits}
use rtcmbridge.Rtcm.Msm.{level_of, read_msm}
use rtcmbridge.Rtcm.Msm.Report.{Observations, header_text, cells_text}
use rtcmbridge.Rtcm.Msm.Signals.{constellation_code}
use rtcmbridge.Rtcm.Msm.Encoding.{
  Announced, Satellite, Cell, header_bits, flag_bits, satellite_bits, cell_bits,
}
use rtcmbridge.Rtcm.Msm.RoundTrip.{all_flags, flags, satellites_bits, rows_bits, row_bits}
use rtcmbridge.Rtcm.Msm.Epoch
use rtcmbridge.Rtcm.Msm.Epoch.{Epoch, epoch_bits}
use rtcmbridge.Rtcm.Decoder.{decode, prologue}
use rtcmbridge.Rtcm.Decoder.Observed.{decode-epoch_bits}
use rtcmbridge.Rtcm.Msm.Bounds.{InBounds, read_msm-InBounds}

-- What follows the type: satellite 1, signal 2, and all other fields zero.
abbrev observed : Bytes
observed =
    0 ∷ 0 ∷ 0 ∷ 0 ∷ 0 ∷ 0 ∷ 0 ∷ 4 ∷ 0 ∷ 0 ∷ 0 ∷ 0 ∷ 0 ∷ 0 ∷ 0 ∷ 2 ∷ 0 ∷ 0 ∷ 0 ∷ 4 ∷ 0 ∷ 0 ∷ 0 ∷ 0
    ∷ 0 ∷ 0 ∷ 0 ∷ 0 ∷ []

abbrev reader : ℕ → BitReader
reader bitpos = record { bytes = observed; total_bits = 224; bitpos = bitpos }

abbrev one_cell : Observations
one_cell = record {
  header = record {
    stid = 0;
    tow = 0;
    mm = 0;
    iods = 0;
    clk_steer = 0;
    ext_clk = 0;
    smooth = 0;
    smooth_int = 0;
    sat_mask = 2 ^ 63;
    sig_mask = 2 ^ 30;
  };
  nsat = 1;
  nsig = 1;
  sat_ids = 1 ∷ [];
  sig_ids = 2 ∷ [];
  present = 1 ∷ [];
  rough = record { ms_whole = 0; mod_1_1024 = 0 } ∷ [];
  cells =
      record {
        sat_idx = 0;
        sig_idx = 0;
        fine_pr = pos 0;
        fine_cp = pos 0;
        lock = 0;
        half = 0;
        cnr_raw = 0;
      }
      ∷ [];
}

one_cell_read : read_msm (level_of 1074) (reader 0) ≡ done one_cell (reader 224)
unfolding read_msm get_u skip get_s
one_cell_read = refl

read_msm-InBounds_example : InBounds one_cell
read_msm-InBounds_example =
    read_msm-InBounds (level_of 1074) (reader 0) (reader 224) one_cell one_cell_read

-- Message 1074 of station 5: the satellites 1 and 12, of which only the first has a cell, for signal 2.
abbrev payload : Bytes
payload =
    67 ∷ 32 ∷ 5 ∷ 0 ∷ 0 ∷ 15 ∷ 162 ∷ 0 ∷ 0 ∷ 64 ∷ 8 ∷ 0 ∷ 0 ∷ 0 ∷ 0 ∷ 0 ∷ 0 ∷ 32 ∷ 0 ∷ 0 ∷ 0 ∷ 72
    ∷ 192 ∷ 26 ∷ 56 ∷ 9 ∷ 255 ∷ 252 ∷ 0 ∷ 0 ∷ 33 ∷ 208 ∷ []

abbrev announced : Announced
announced = record {
  header = record {
    stid = 5;
    tow = 1_000;
    mm = 1;
    iods = 0;
    clk_steer = 0;
    ext_clk = 0;
    smooth = 0;
    smooth_int = 0;
    sat_mask = 2 ^ 63 + 2 ^ 52;
    sig_mask = 2 ^ 30;
  };
  reserved = 0 ∷ 0 ∷ 0 ∷ 0 ∷ 0 ∷ 0 ∷ 0 ∷ [];
  stid_fits = omega arith;
  tow_fits = omega arith;
  mm_fits = omega arith;
  iods_fits = omega arith;
  reserved_fits = refl;
  clk_steer_fits = omega arith;
  ext_clk_fits = omega arith;
  smooth_fits = omega arith;
  smooth_int_fits = omega arith;
  sat_mask_fits = omega arith;
  sig_mask_fits = omega arith;
}

abbrev satellite : (whole mod_1_1024 : ℕ) → whole < 2 ^ 8 → mod_1_1024 < 2 ^ 10 → Satellite
satellite whole mod_1_1024 h k = record {
  whole = whole;
  ext = 0;
  mod_1_1024 = mod_1_1024;
  rate = pos 0;
  whole_fits = h;
  ext_fits = omega arith;
  mod_fits = k;
  rate_fits = omega arith;
}

abbrev cell : Cell (level_of 1074)
cell = record {
  fine_pr = negsuc 0;
  fine_cp = pos 2;
  lock = 1;
  half = 1;
  cnr_raw = 40;
  rate = pos 0;
  fine_pr_fits = omega arith;
  fine_cp_fits = omega arith;
  lock_fits = omega arith;
  half_fits = omega arith;
  cnr_fits = omega arith;
  rate_fits = omega arith;
}

abbrev epoch : Epoch (level_of 1074)
unfolding id_bits
epoch = record {
  announced = announced;
  sats = 1 ∷ 12 ∷ [];
  sigs = 2 ∷ [];
  satellites =
      satellite 70 3 (omega arith) (omega arith) ∷ satellite 71 4 (omega arith) (omega arith) ∷ [];
  rows = (some cell ∷ []) ∷ (none ∷ []) ∷ [];
  sats_rise = (omega arith, omega arith, (omega arith, omega arith, tt));
  sigs_rise = (omega arith, omega arith, tt);
  sat_mask = refl;
  sig_mask = refl;
  one_satellite = refl;
  one_row = refl;
  one_place = (refl, (refl, tt));
}

decode-epoch_bits_example :
    let m = Epoch.observed (level_of 1074) epoch in
    decode payload
    ≡ prologue 1074 32 ++ header_text m ++ cells_text (level_of 1074) (constellation_code 1074) m
decode-epoch_bits_example =
    decode-epoch_bits payload 1074 epoch (0 ∷ [])
      record {
        first = omega arith;
        last = omega arith;
        level_first = omega arith;
        level_last = omega arith;
      }
      (unfold epoch epoch_bits header_bits flag_bits all_flags flags satellites_bits satellite_bits
          rows_bits row_bits cell_bits in
        refl)
