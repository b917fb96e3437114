-- ===== src/Rtcm/Msm/Ids.antt =====
-- The satellite and signal ids of src/rtcm_decoder_ntrip.cpp are those that an encoder has put in the
-- mask.
use native.Mathlib.Nat.{mul-add-div_right, one-le-pow, pow-suc, div-eq_of_lt}
use rtcmbridge.Base.{
  ℕ, zero, suc, ◌+◌, ◌*◌, ◌/◌, ◌^◌, ◌≤◌, ◌<◌, ◌≡◌, refl, ap, sym, ◌∙◌, List, [], ◌∷◌, arith, length,
  All, ◌==◌, if◌then◌else◌, inl, inr, Bool-cases, ==_iff,
}
use rtcmbridge.Rtcm.BitReader.Bits.{to_bits, of_bits, of_bits-lt}
use rtcmbridge.Rtcm.Msm.Mask.{mask_ids}

to_bits-add : (n c v : ℕ) → to_bits n (c * 2 ^ n + v) ≡ to_bits n v
to_bits-add zero c v = refl
to_bits-add (suc n) c v =
    let power : c * 2 ^ suc n ≡ 2 * c * 2 ^ n =
      omega (arith, ap (λ (t : ℕ). c * t) (pow-suc 2 n)) in
    let one : 0 < 2 ^ n = one-le-pow n 2 (omega arith) in
    let high : (2 * c * 2 ^ n + v) / 2 ^ n ≡ 2 * c + v / 2 ^ n = mul-add-div_right one (2 * c) v in
    rw (power, high, to_bits-add n (2 * c) v) (ap (λ (t : ℕ). t ∷ to_bits n v) (omega arith))

to_bits-of_bits : (bs : List ℕ) → All (λ b. b ≤ 1) bs → to_bits (length bs) (of_bits bs) ≡ bs
to_bits-of_bits [] h = refl
to_bits-of_bits (b ∷ bs) h =
    let n = length bs in
    let one : 0 < 2 ^ n = one-le-pow n 2 (omega arith) in
    let none_above : of_bits bs / 2 ^ n ≡ 0 = div-eq_of_lt (of_bits-lt bs h.1) in
    let high : (b * 2 ^ n + of_bits bs) / 2 ^ n ≡ b =
      omega (arith, mul-add-div_right one b (of_bits bs)) in
    rw (high, to_bits-add n b (of_bits bs), to_bits-of_bits bs h.1)
      (ap (λ (t : ℕ). t ∷ bs) (omega (arith, h.0)))

-- `i` and one for each bit before the ones.
positions : ℕ → List ℕ → List ℕ
positions i [] = []
positions i (b ∷ bs) = let rest = positions (i + 1) bs in if b == 1 then (i + 1) ∷ rest else rest

mask_ids-positions : (w i mask : ℕ) → mask_ids w i mask ≡ positions i (to_bits w mask)
unfolding mask_ids positions
mask_ids-positions zero i mask = refl
mask_ids-positions (suc w) i mask = rw (mask_ids-positions w (i + 1) mask) refl

-- The bits of a mask of width `w` for the ids from `i` on: a one for each id.
unfoldable pub id_bits : ℕ → ℕ → List ℕ → List ℕ
id_bits zero i ids = []
id_bits (suc w) i [] = 0 ∷ id_bits w (i + 1) []
id_bits (suc w) i (id ∷ ids) =
    let there = 1 ∷ id_bits w (i + 1) ids in
    let later = 0 ∷ id_bits w (i + 1) (id ∷ ids) in if id == i + 1 then there else later

-- The mask that an encoder writes for the ids.
abbrev pub mask_of : ℕ → List ℕ → ℕ
mask_of w ids = of_bits (id_bits w 0 ids)

-- The ids rise, from above `i` to `last` at most.
abbrev pub Rises : ℕ → ℕ → List ℕ → Type 0
Rises i last [] = Unit
Rises i last (id ∷ ids) = (i < id) × (id ≤ last) × Rises id last ids

length-id_bits : (w i : ℕ) (ids : List ℕ) → length (id_bits w i ids) ≡ w
unfolding id_bits
length-id_bits zero i ids = refl
length-id_bits (suc w) i [] = ap suc (length-id_bits w (i + 1) [])
length-id_bits (suc w) i (id ∷ ids) = elim (Bool-cases (id == i + 1)) [
  | inl e ↦ rw e (ap suc (length-id_bits w (i + 1) ids))
  | inr e ↦ rw e (ap suc (length-id_bits w (i + 1) (id ∷ ids)))
]

id_bits-All : (w i : ℕ) (ids : List ℕ) → All (λ b. b ≤ 1) (id_bits w i ids)
unfolding id_bits
id_bits-All zero i ids = tt
id_bits-All (suc w) i [] = (omega arith, id_bits-All w (i + 1) [])
id_bits-All (suc w) i (id ∷ ids) = elim (Bool-cases (id == i + 1)) [
  | inl e ↦ rw e (omega arith, id_bits-All w (i + 1) ids)
  | inr e ↦ rw e (omega arith, id_bits-All w (i + 1) (id ∷ ids))
]

positions-id_bits :
    (w i : ℕ) (ids : List ℕ) → Rises i (i + w) ids → positions i (id_bits w i ids) ≡ ids
unfolding positions id_bits
positions-id_bits zero i [] h = refl
positions-id_bits zero i (id ∷ ids) h = absurd (omega (arith, h.0, h.1))
positions-id_bits (suc w) i [] h = positions-id_bits w (i + 1) [] tt
positions-id_bits (suc w) i (id ∷ ids) h =
    let end : i + suc w ≡ i + 1 + w = omega arith in
    elim (Bool-cases (id == i + 1)) [
      | inl e ↦
          let same : id ≡ i + 1 = (==_iff id (i + 1)).0 e in
          let rest : Rises (i + 1) (i + 1 + w) ids = rw (same, end) at h.2 in
          rw e (
            ap (λ l. (i + 1) ∷ l) (positions-id_bits w (i + 1) ids rest)
            ∙ ap (λ x. x ∷ ids) (sym same))
      | inr e ↦
          let above : i + 1 < id = ground arith in
          rw e (positions-id_bits w (i + 1) (id ∷ ids) (above, rw end at h.1, rw end at h.2))
    ]

-- From the mask that an encoder writes for rising ids from 1 to the width of the mask, exactly those ids
-- are read, in order.
pub mask_ids-mask_of : (w : ℕ) (ids : List ℕ) → Rises 0 w ids → mask_ids w 0 (mask_of w ids) ≡ ids
mask_ids-mask_of w ids h =
    let bits = id_bits w 0 ids in
    let spelt : to_bits w (of_bits bits) ≡ bits =
      rw (length-id_bits w 0 ids) at (to_bits-of_bits bits (id_bits-All w 0 ids)) in
    let width : 0 + w ≡ w = omega arith in
    mask_ids-positions w 0 (of_bits bits)
    ∙ ap (positions 0) spelt
    ∙ positions-id_bits w 0 ids (rw (← width) at h)
