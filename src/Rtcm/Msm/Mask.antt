-- ===== src/Rtcm/Msm/Mask.antt =====
-- The header of an MSM message, its satellite, signal and cell masks: `decode_msm`, `popcount64`
-- and `popcount32` of src/rtcm_decoder_ntrip.cpp.
use rtcmbridge.Base.{ℕ, zero, suc, ◌+◌, ◌/◌, ◌%◌, ◌^◌, List, [], ◌∷◌, ◌==◌, if◌then◌else◌}
use rtcmbridge.Rtcm.BitReader.{get_u}
use rtcmbridge.Rtcm.Reading.{Read, ◌>>=◌, ◌>>◌, return, skip_bits}

pub record Header : Type 0 where
  pub stid : ℕ
  pub tow : ℕ
  pub mm : ℕ
  pub iods : ℕ
  pub clk_steer : ℕ
  pub ext_clk : ℕ
  pub smooth : ℕ
  pub smooth_int : ℕ
  pub sat_mask : ℕ
  pub sig_mask : ℕ

unfoldable pub read_header : Read Header
read_header = do
  stid ← get_u 12
  tow ← get_u 30
  mm ← get_u 1
  iods ← get_u 3
  skip_bits 7
  clk_steer ← get_u 2
  ext_clk ← get_u 2
  smooth ← get_u 1
  smooth_int ← get_u 3
  sat_mask ← get_u 64
  sig_mask ← get_u 32
  return (record {
    stid = stid;
    tow = tow;
    mm = mm;
    iods = iods;
    clk_steer = clk_steer;
    ext_clk = ext_clk;
    smooth = smooth;
    smooth_int = smooth_int;
    sat_mask = sat_mask;
    sig_mask = sig_mask;
  })

-- The ones among the lowest `width` bits (`__builtin_popcountll`, `__builtin_popcount`).
unfoldable pub popcount : ℕ → ℕ → ℕ
popcount zero v = 0
popcount (suc width) v = v % 2 + popcount width (v / 2)

-- `for (i …) if ((mask >> (width - 1 - i)) & 1) ids.push_back(i + 1);` by the rounds left, from `i`.
unfoldable pub mask_ids : ℕ → ℕ → ℕ → List ℕ
mask_ids zero i mask = []
mask_ids (suc left) i mask =
    let rest = mask_ids left (i + 1) mask in
    if mask / 2 ^ left % 2 == 1 then (i + 1) ∷ rest else rest

-- The flags of `max_cells` cells.
unfoldable pub read_cell_mask : ℕ → Read (List ℕ)
read_cell_mask zero = return []
read_cell_mask (suc n) = do bit ← get_u 1; rest ← read_cell_mask n; return (bit ∷ rest)
