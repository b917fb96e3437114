-- ===== src/Rtcm/Msm/Report.antt =====
-- What `decode_msm` of src/rtcm_decoder_ntrip.cpp writes of an MSM message.
use rtcmbridge.Base.{
  ℕ, ◌+◌, ◌-◌, ◌^◌, Bool, false, not, ◌&&◌, Option, none, some, List, [], ◌∷◌, ◌++◌, ltb, ◌==◌,
  if◌then◌else◌, get_or,
}
use rtcmbridge.Base.Int.{ℤ, pos, negsuc}
use rtcmbridge.Rtcm.Output.{
  Real, of_ℕ, of_ℤ, decimal, ldexp, add, mul, div, text, num, fixed, prn, Stream,
}
use rtcmbridge.Rtcm.Msm.Signals.{SigInfo, signal_info}
use rtcmbridge.Rtcm.Msm.Mask.{Header}
use rtcmbridge.Rtcm.Msm.Cells.{Level, Rough, ObsCell, pr_bits, cp_bits}

-- All that `decode_msm` has read when it starts to write.
pub record Observations : Type 0 where
  pub header : Header
  pub nsat : ℕ
  pub nsig : ℕ
  pub sat_ids : List ℕ
  pub sig_ids : List ℕ
  pub present : List ℕ
  pub rough : List Rough
  pub cells : List ObsCell

-- `ncells += bit`, over the cell mask.
unfoldable pub count_cells : List ℕ → ℕ
count_cells [] = 0
count_cells (bit ∷ bits) = bit + count_cells bits

unfoldable pub header_text : Observations → Stream
unfolding count_cells
header_text m =
    text " staid="
    ∷ num m.header.stid
    ∷ text " tow="
    ∷ num m.header.tow
    ∷ text " nsat="
    ∷ num m.nsat
    ∷ text " nsig="
    ∷ num m.nsig
    ∷ text " ncells="
    ∷ num (count_cells m.present)
    ∷ text " multiple="
    ∷ num m.header.mm
    ∷ text " smoothing="
    ∷ num m.header.smooth
    ∷ text " smooth_int="
    ∷ num m.header.smooth_int
    ∷ text " clk="
    ∷ num m.header.clk_steer
    ∷ text " extclk="
    ∷ num m.header.ext_clk
    ∷ []

unfoldable pub is_invalid_signed : ℤ → ℕ → Bool
is_invalid_signed (pos n) bits = false
is_invalid_signed (negsuc n) bits = n + 1 == 2 ^ (bits - 1)

abbrev pub light_speed : Real
light_speed = decimal 299_792_458 0

abbrev pub rough_ms : Rough → Real
rough_ms r = add (of_ℕ r.ms_whole) (div (of_ℕ r.mod_1_1024) (decimal 1024 0))

abbrev pub rough_valid : Rough → Bool
rough_valid r = not (r.ms_whole == 255)

unfoldable pub pr_valid : Level → Rough → ObsCell → Bool
unfolding is_invalid_signed
pr_valid level r c = rough_valid r && not (is_invalid_signed c.fine_pr (pr_bits level))

unfoldable pub cp_valid : Level → Rough → ObsCell → Bool
unfolding is_invalid_signed
cp_valid level r c = rough_valid r && not (is_invalid_signed c.fine_cp (cp_bits level))

-- `pr_ms * 1e-3 * kLightSpeed`
abbrev pub pr_m : Level → Rough → ObsCell → Real
pr_m level r c =
    let pr_ms = add (rough_ms r) (mul (of_ℤ c.fine_pr) (ldexp (if level.hi_res then 29 else 24))) in
    mul (mul pr_ms (decimal 1 3)) light_speed

abbrev pub cp_cycles : Level → Rough → ObsCell → ℕ → Real
cp_cycles level r c freq_hz =
    let cp_ms = add (rough_ms r) (mul (of_ℤ c.fine_cp) (ldexp (if level.hi_res then 31 else 29))) in
    let cp_m = mul (mul cp_ms (decimal 1 3)) light_speed in
    div (mul cp_m (of_ℕ freq_hz)) light_speed

-- 0.0625 dBHz a unit, or 1.
abbrev pub snr_dbhz : Level → ObsCell → Real
snr_dbhz level c = mul (of_ℕ c.cnr_raw) (if level.hi_res then decimal 625 4 else decimal 1 0)

-- The line of one cell.
unfoldable pub cell_text : Level → SigInfo → Rough → ObsCell → Stream
unfolding pr_valid cp_valid
cell_text level sig r c =
    (text "\n    " ∷ sig.label)
    ++ (text "="
        ∷ (if pr_valid level r c then fixed (pr_m level r c) 3 else text "N/A")
        ∷ text " m"
        ∷ text " / "
        ∷ (if cp_valid level r c && ltb 0 sig.freq_hz
            then fixed (cp_cycles level r c sig.freq_hz) 3
            else text "N/A")
        ∷ text " cycles"
        ∷ text " / SNR "
        ∷ fixed (snr_dbhz level c) 2
        ∷ text " dBHz"
        ∷ text " / Lock "
        ∷ num c.lock
        ∷ text (if ltb 0 c.lock then " (LOCKED)" else " (UNLOCKED)")
        ∷ text (if c.half == 0 then "" else " / HalfCycle=1")
        ∷ [])

abbrev no_rough : Rough
no_rough = record { ms_whole = 0; mod_1_1024 = 0 }

-- `sat_ids[c.sat_idx]`, `sig_ids[c.sig_idx]` and the two rough arrays at a cell.
abbrev pub sat_of : Observations → ObsCell → ℕ
sat_of m c = get_or m.sat_ids c.sat_idx 0

abbrev pub sig_of : Observations → ObsCell → ℕ
sig_of m c = get_or m.sig_ids c.sig_idx 0

abbrev pub rough_of : Observations → ObsCell → Rough
rough_of m c = get_or m.rough c.sat_idx no_rough

-- `if (sat != last_sat)`, where `last_sat` is -1 at first.
abbrev same_sat : ℕ → Option ℕ → Bool
same_sat sat none = false
same_sat sat (some last) = sat == last

unfoldable pub cells_loop : Level → ℕ → Observations → Option ℕ → List ObsCell → Stream
unfolding cell_text signal_info
cells_loop level constel m last_sat [] = []
cells_loop level constel m last_sat (c ∷ cs) =
    let sat = sat_of m c in
    (if same_sat sat last_sat then [] else text "\n  PRN " ∷ prn constel sat ∷ text ":" ∷ [])
    ++ cell_text level (signal_info constel (sig_of m c)) (rough_of m c) c
    ++ cells_loop level constel m (some sat) cs

unfoldable pub cells_text : Level → ℕ → Observations → Stream
unfolding cells_loop
cells_text level constel m = cells_loop level constel m none m.cells
