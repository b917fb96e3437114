-- ===== src/Rtcm/Msm/RoundTrip.antt =====
-- An MSM message that is written satellite by satellite and cell by cell is read by `decode_msm` of
-- src/rtcm_decoder_ntrip.cpp as it was written.
use rtcmbridge.Base.{
  ℕ, zero, suc, ◌+◌, ◌*◌, ◌≤◌, ◌≡◌, ◌≢◌, refl, ap, ◌∙◌, Option, none, some, List, [], ◌∷◌, ◌++◌,
  arith, length, All, All-append, append-nil, drop, get_or, map, drop_add, drop-append_length,
  length-append,
}
use rtcmbridge.Rtcm.Attempt.{return}
use rtcmbridge.Rtcm.Msm.Cells.{Level, ObsCell, read_rough, read_row, read_cells}
use rtcmbridge.Rtcm.Msm.Yields.{Yields, >>=-Yields, return-Yields}
use rtcmbridge.Rtcm.Msm.Encoding.{
  Satellite, satellite_bits, rough_part, read_satellite-Yields, Cell, cell_bits, cell_of,
  read_cell-Yields,
}

nil≢cons : {x : ℕ} {t : List ℕ} → ◌≢◌ {A = List ℕ} [] (x ∷ t)
nil≢cons e = cc

head_at :
    (l : List ℕ) (n x : ℕ) (t : List ℕ)
    → drop n l ≡ x ∷ t
    → (get_or l n 0 ≡ x) × (drop (suc n) l ≡ t)
head_at [] zero x t h = absurd (nil≢cons h)
head_at [] (suc n) x t h = absurd (nil≢cons h)
head_at (y ∷ l) zero x t h = (ap (λ m. get_or m 0 0) h, ap (λ m. drop 1 m) h)
head_at (y ∷ l) (suc n) x t h = head_at l n x t h

module _ (level : Level) where
  unfoldable pub satellites_bits : List Satellite → List ℕ
  satellites_bits [] = []
  satellites_bits (s ∷ more) = satellite_bits level s ++ satellites_bits more

  pub read_rough-Yields :
      (satellites : List Satellite)
      → Yields
          (read_rough level (length satellites))
          (satellites_bits satellites)
          (map (rough_part level) satellites)
  unfolding read_rough satellites_bits
  read_rough-Yields [] = return-Yields _
  read_rough-Yields (s ∷ more) = >>=-Yields _ (read_satellite-Yields level s) (
      rw (append-nil (satellites_bits more)) at (
        >>=-Yields (λ rest. return (rough_part level s ∷ rest)) (read_rough-Yields more)
          (return-Yields _)))

  -- The cells of a satellite: one place for each signal.
  abbrev pub Row : Type 0
  Row = List (Option (Cell level))

  unfoldable pub flags : Row → List ℕ
  flags [] = []
  flags (none ∷ row) = 0 ∷ flags row
  flags (some c ∷ row) = 1 ∷ flags row

  unfoldable pub row_bits : Row → List ℕ
  row_bits [] = []
  row_bits (none ∷ row) = row_bits row
  row_bits (some c ∷ row) = cell_bits level c ++ row_bits row

  -- The cells of satellite `si` from signal `gi` on.
  unfoldable pub row_cells : ℕ → ℕ → Row → List ObsCell
  row_cells si gi [] = []
  row_cells si gi (none ∷ row) = row_cells si (gi + 1) row
  row_cells si gi (some c ∷ row) = cell_of level si gi c ∷ row_cells si (gi + 1) row

  read_row-Yields :
      (present : List ℕ) (nsig si : ℕ) (row : Row) (gi : ℕ) (tail : List ℕ)
      → drop (si * nsig + gi) present ≡ flags row ++ tail
      → Yields (read_row level present nsig si (length row) gi) (row_bits row) (row_cells si gi row)
  unfolding read_row flags row_bits row_cells
  read_row-Yields present nsig si [] gi tail h = return-Yields _
  read_row-Yields present nsig si (none ∷ row) gi tail h =
      let (here, next) = head_at present (si * nsig + gi) 0 (flags row ++ tail) h in
      let place : si * nsig + (gi + 1) ≡ suc (si * nsig + gi) = omega arith in
      rw here (read_row-Yields present nsig si row (gi + 1) tail (rw place next))
  read_row-Yields present nsig si (some c ∷ row) gi tail h =
      let (here, next) = head_at present (si * nsig + gi) 1 (flags row ++ tail) h in
      let place : si * nsig + (gi + 1) ≡ suc (si * nsig + gi) = omega arith in
      rw here (
        >>=-Yields _ (read_cell-Yields level si gi c) (
          rw (append-nil (row_bits row)) at (
            >>=-Yields (λ cells. return (cell_of level si gi c ∷ cells))
              (read_row-Yields present nsig si row (gi + 1) tail (rw place next))
              (return-Yields _))))

  -- The cells of all satellites.
  unfoldable pub all_flags : List Row → List ℕ
  all_flags [] = []
  all_flags (row ∷ rows) = flags row ++ all_flags rows

  unfoldable pub rows_bits : List Row → List ℕ
  rows_bits [] = []
  rows_bits (row ∷ rows) = row_bits row ++ rows_bits rows

  unfoldable pub rows_cells : ℕ → List Row → List ObsCell
  rows_cells si [] = []
  rows_cells si (row ∷ rows) = row_cells si 0 row ++ rows_cells (si + 1) rows

  length-flags : (row : Row) → length (flags row) ≡ length row
  unfolding flags
  length-flags [] = refl
  length-flags (none ∷ row) = ap suc (length-flags row)
  length-flags (some c ∷ row) = ap suc (length-flags row)

  pub length-all_flags :
      (nsig : ℕ) (rows : List Row)
      → All (λ row. length row ≡ nsig) rows
      → length (all_flags rows) ≡ length rows * nsig
  unfolding all_flags
  length-all_flags nsig [] h = omega arith
  length-all_flags nsig (row ∷ rows) h = omega (
    arith,
    length-append (flags row) (all_flags rows),
    length-flags row,
    h.0,
    length-all_flags nsig rows h.1,
  )

  flags-All : (row : Row) → All (λ flag. flag ≤ 1) (flags row)
  unfolding flags
  flags-All [] = tt
  flags-All (none ∷ row) = (omega arith, flags-All row)
  flags-All (some c ∷ row) = (omega arith, flags-All row)

  pub all_flags-All : (rows : List Row) → All (λ flag. flag ≤ 1) (all_flags rows)
  unfolding all_flags
  all_flags-All [] = tt
  all_flags-All (row ∷ rows) =
      All-append (λ flag. flag ≤ 1) (flags row) (all_flags rows) (flags-All row)
        (all_flags-All rows)

  pub read_cells-Yields :
      (present : List ℕ) (nsig : ℕ) (rows : List Row) (si : ℕ)
      → All (λ row. length row ≡ nsig) rows
      → drop (si * nsig) present ≡ all_flags rows
      → Yields
          (read_cells level present nsig (length rows) si)
          (rows_bits rows)
          (rows_cells si rows)
  unfolding read_cells all_flags rows_bits rows_cells
  read_cells-Yields present nsig [] si h d = return-Yields _
  read_cells-Yields present nsig (row ∷ rows) si h d =
      let here : si * nsig + 0 ≡ si * nsig = omega arith in
      let next : (si + 1) * nsig ≡ si * nsig + nsig = omega arith in
      let width : length (flags row) ≡ nsig = length-flags row ∙ h.0 in
      let d' : drop ((si + 1) * nsig) present ≡ all_flags rows =
        rw (next, drop_add (si * nsig) nsig present, d, ← width)
          (drop-append_length (flags row) (all_flags rows)) in
      let row_read = read_row-Yields present nsig si row 0 (all_flags rows) (rw here d) in
      >>=-Yields _ (rw h.0 at row_read) (
        rw (append-nil (rows_bits rows)) at (
          >>=-Yields (λ rest. return (row_cells si 0 row ++ rest))
            (read_cells-Yields present nsig rows (si + 1) h.1 d') (return-Yields _)))
