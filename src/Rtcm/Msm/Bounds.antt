-- ===== src/Rtcm/Msm/Bounds.antt =====
-- The vectors of `decode_msm`, src/rtcm_decoder_ntrip.cpp, are never read outside their bounds.
use native.Mathlib.Nat.{pow-succ', div-div-eq-div-mul}
use rtcmbridge.Base.{
  ℕ, zero, suc, ◌+◌, ◌*◌, ◌/◌, ◌%◌, ◌^◌, ◌≤◌, ◌<◌, ◌≡◌, ◌≢◌, refl, ap, ◌∙◌, sym, false, inl, inr,
  String, List, arith, length, get_or, ◌==◌, Bool-cases, ==_iff, All, All-append,
}
use rtcmbridge.Base.Int.{pos}
use rtcmbridge.Rtcm.BitReader.{BitReader, get_u, get_s}
use rtcmbridge.Rtcm.Attempt.{done, or_fail}
use rtcmbridge.Rtcm.Msm.{read_msm}
use rtcmbridge.Rtcm.Msm.Mask.{popcount, mask_ids, read_cell_mask, read_header}
use rtcmbridge.Rtcm.Msm.Cells.{
  Level, Rough, ObsCell, read_satellite, read_rough, read_cell, when_rate, pr_bits, cp_bits,
  lock_bits, cnr_bits, read_row, read_cells,
}
use rtcmbridge.Rtcm.Msm.Report.{Observations}
use rtcmbridge.Rtcm.Msm.Ends.{
  Ends, ends, from_ends, >>=-Ends, Ends-any, Reads, reads, >>=-Reads, Reads-any, Reads-Ends,
}

-- Counting from the top bit is counting from the bottom one.
popcount-top : (w v : ℕ) → popcount (suc w) v ≡ v / 2 ^ w % 2 + popcount w v
unfolding popcount
popcount-top zero v = omega arith
popcount-top (suc w) v =
    let halves : v / 2 / 2 ^ w ≡ v / 2 ^ suc w =
      div-div-eq-div-mul v 2 (2 ^ w) ∙ ap (λ (t : ℕ). v / t) (sym (pow-succ' 2 w)) in
    omega (arith, popcount-top w (v / 2), ap (λ (t : ℕ). t % 2) halves)

bit_off : (m : ℕ) → (m % 2 == 1) ≡ false → m % 2 ≡ 0
bit_off m h = ground arith

-- A mask has as many ids as bits that are set.
pub length-mask_ids : (w i mask : ℕ) → length (mask_ids w i mask) ≡ popcount w mask
unfolding mask_ids
length-mask_ids zero i mask = unfold popcount in refl
length-mask_ids (suc w) i mask = elim (Bool-cases (mask / 2 ^ w % 2 == 1)) [
  | inl e ↦
      rw (e, popcount-top w mask) (omega (arith, (==_iff _ _).0 e, length-mask_ids w (i + 1) mask))
  | inr e ↦
      rw (e, popcount-top w mask)
        (omega (arith, bit_off (mask / 2 ^ w) e, length-mask_ids w (i + 1) mask))
]

read_cell_mask-length :
    (n : ℕ) (br : BitReader) → Reads (λ (xs : List ℕ). length xs ≡ n) (read_cell_mask n br)
unfolding read_cell_mask
read_cell_mask-length zero br = reads br refl
read_cell_mask-length (suc n) br =
    >>=-Reads _ (Reads-any (get_u 1 br))
      (λ bit br1 _. >>=-Reads _ (read_cell_mask-length n br1) (λ rest br2 e. reads br2 (ap suc e)))

read_rough-length :
    (level : Level) (n : ℕ) (br : BitReader)
    → Ends (λ (xs : List Rough). length xs ≡ n) (read_rough level n br)
unfolding read_rough
read_rough-length level zero br = ends br refl
read_rough-length level (suc n) br =
    >>=-Ends _ (Ends-any (read_satellite level br))
      (λ sat br1 _. >>=-Ends _ (read_rough-length level n br1) (λ rest br2 e. ends br2 (ap suc e)))

-- The cell is one of the satellites' and signals', and is marked in the mask.
pub record Fits (present : List ℕ) (nsat nsig : ℕ) (c : ObsCell) : Type 0 where
  pub sat : c.sat_idx < nsat
  pub sig : c.sig_idx < nsig
  pub marked : get_or present (c.sat_idx * nsig + c.sig_idx) 0 ≢ 0

read_cell-place :
    (level : Level) (si gi : ℕ) (br : BitReader)
    → Ends (λ (c : ObsCell). (c.sat_idx ≡ si) × (c.sig_idx ≡ gi)) (read_cell level si gi br)
unfolding read_cell
read_cell-place level si gi br =
    let text : String = " decode_error=truncated_msm_cell_data" in
    >>=-Ends _ (Ends-any (or_fail (get_s (pr_bits level)) text br)) (λ fine_pr br1 _.
      >>=-Ends _ (Ends-any (or_fail (get_s (cp_bits level)) text br1)) (λ fine_cp br2 _.
        >>=-Ends _ (Ends-any (or_fail (get_u (lock_bits level)) text br2)) (λ lock br3 _.
          >>=-Ends _ (Ends-any (or_fail (get_u 1) text br3)) (λ half br4 _.
            >>=-Ends _ (Ends-any (or_fail (get_u (cnr_bits level)) text br4)) (λ cnr_raw br5 _.
              >>=-Ends _
                (Ends-any (
                  when_rate level (pos 0)
                    (or_fail (get_s 15) " decode_error=truncated_msm_phase_rate") br5))
                (λ rate br6 _. ends br6 (refl, refl)))))))

nonzero : (n : ℕ) → (n == 0) ≡ false → n ≢ 0
nonzero n h = ground arith

place-Fits :
    (present : List ℕ) (nsat nsig si gi : ℕ) (c : ObsCell)
    → (c.sat_idx ≡ si) × (c.sig_idx ≡ gi)
    → si < nsat
    → gi < nsig
    → (get_or present (si * nsig + gi) 0 == 0) ≡ false
    → Fits present nsat nsig c
place-Fits present nsat nsig si gi c (s, g) h k e = record {
  sat = omega (arith, s, h);
  sig = omega (arith, g, k);
  marked = rw (s, g) (nonzero _ e);
}

-- The cells of one satellite are in bounds.
read_row-Fits :
    (level : Level) (present : List ℕ) (nsat nsig si left gi : ℕ) (br : BitReader)
    → si < nsat
    → gi + left ≤ nsig
    → Ends (All (Fits present nsat nsig)) (read_row level present nsig si left gi br)
unfolding read_row
read_row-Fits level present nsat nsig si zero gi br h k = ends br tt
read_row-Fits level present nsat nsig si (suc left) gi br h k =
    elim (Bool-cases (get_or present (si * nsig + gi) 0 == 0)) [
      | inl e ↦
          rw (read_row, e)
            (read_row-Fits level present nsat nsig si left (gi + 1) br h (omega (arith, k)))
      | inr e ↦
          rw (read_row, e)
            (>>=-Ends _ (read_cell-place level si gi br) (λ cell br1 place.
              >>=-Ends _
                (read_row-Fits level present nsat nsig si left (gi + 1) br1 h (omega (arith, k)))
                (λ cells br2 c.
                  ends br2
                    (place-Fits present nsat nsig si gi cell place h (omega (arith, k)) e, c))))
    ]

read_cells-Fits :
    (level : Level) (present : List ℕ) (nsat nsig left si : ℕ) (br : BitReader)
    → si + left ≤ nsat
    → Ends (All (Fits present nsat nsig)) (read_cells level present nsig left si br)
unfolding read_cells
read_cells-Fits level present nsat nsig zero si br h = ends br tt
read_cells-Fits level present nsat nsig (suc left) si br h =
    >>=-Ends _ (read_row-Fits level present nsat nsig si nsig 0 br (omega (arith, h)) (omega arith))
      (λ row br1 r.
        >>=-Ends _ (read_cells-Fits level present nsat nsig left (si + 1) br1 (omega (arith, h)))
          (λ rest br2 c. ends br2 (All-append _ row rest r c)))

-- Every vector has the length that the message's counts say, and every cell's indices are below them.
pub record InBounds (m : Observations) : Type 0 where
  pub sats : length m.sat_ids ≡ m.nsat
  pub sigs : length m.sig_ids ≡ m.nsig
  pub roughs : length m.rough ≡ m.nsat
  pub flags : length m.present ≡ m.nsat * m.nsig
  pub cells : All (Fits m.present m.nsat m.nsig) m.cells

read_msm-Ends : (level : Level) (br : BitReader) → Ends InBounds (read_msm level br)
unfolding read_msm
read_msm-Ends level br =
    >>=-Ends _ (Ends-any (or_fail read_header " decode_error=invalid_msm_header" br))
      (λ header br1 _.
        let nsat = popcount 64 header.sat_mask in
        let nsig = popcount 32 header.sig_mask in
        >>=-Ends _
          (Reads-Ends " decode_error=invalid_msm_cell_mask"
            (read_cell_mask-length (nsat * nsig) br1))
          (λ present br2 flags. >>=-Ends _ (read_rough-length level nsat br2) (λ rough br3 roughs.
            >>=-Ends _ (read_cells-Fits level present nsat nsig nsat 0 br3 (omega arith))
              (λ cells br4 fits. ends br4 record {
                sats = length-mask_ids 64 0 header.sat_mask;
                sigs = length-mask_ids 32 0 header.sig_mask;
                roughs = roughs;
                flags = flags;
                cells = fits;
              }))))

-- When the observations of a message have been read, every vector is as long as its counts say, and
-- each cell indexes a satellite and a signal there are and is marked in the cell mask: the output
-- loop reads no vector out of bounds.
pub read_msm-InBounds :
    (level : Level) (br br' : BitReader) (m : Observations)
    → read_msm level br ≡ done m br'
    → InBounds m
read_msm-InBounds level br br' m h =
    let outcome : Ends InBounds (done m br') = rw h at (read_msm-Ends level br) in from_ends outcome
