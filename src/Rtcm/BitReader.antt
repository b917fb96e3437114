-- ===== src/Rtcm/BitReader.antt =====
-- `BitReader` of src/rtcm_decoder_ntrip.cpp: reads of 1 to 64 bits, most significant bit first.
-- A method that returns false returns `none` here, and the caller keeps the reader it had.
pub mod Bits
pub mod Value
pub mod Fields
use rtcmbridge.Base.{
  ℕ, zero, suc, ◌+◌, ◌-◌, ◌*◌, ◌/◌, ◌%◌, ◌^◌, Bool, true, false, ◌||◌, Option, none, some, ltb,
  ◌==◌, if◌then◌else◌, Bytes, length, get_or,
}
use rtcmbridge.Base.Int.{ℤ, pos, negsuc}

pub record BitReader : Type 0 where
  pub bytes : Bytes
  pub total_bits : ℕ
  pub bitpos : ℕ

-- The constructor. Buffers are far below 2^61 bytes, so that `bytes * 8` does not wrap.
unfoldable pub bit_reader : Bytes → BitReader
bit_reader bytes = record { bytes = bytes; total_bits = length bytes * 8; bitpos = 0 }

-- `(data_[idx / 8] >> (7 - (idx % 8))) & 0x01`
unfoldable pub bit_at : Bytes → ℕ → ℕ
bit_at bytes idx = get_or bytes (idx / 8) 0 / 2 ^ (7 - idx % 8) % 2

-- The loop of `getU`, by the rounds that are left. `(v << 1) | bit` keeps 64 bits; the low bit of
-- the shifted value is 0, so that `|` adds.
unfoldable pub read_bits : Bytes → ℕ → ℕ → ℕ → ℕ
unfolding bit_at
read_bits bytes zero idx v = v
read_bits bytes (suc n) idx v = read_bits bytes n (idx + 1) (v * 2 % 2 ^ 64 + bit_at bytes idx)

unfoldable pub get_u : ℕ → BitReader → Option (ℕ × BitReader)
unfolding read_bits
get_u n br =
    if ltb 64 n
    then none
    else if ltb br.total_bits (br.bitpos + n)
    then none
    else some (read_bits br.bytes n br.bitpos 0, record br { bitpos = br.bitpos + n })

-- The cast of a 64-bit pattern to `int64_t`.
unfoldable pub to_int64 : ℕ → ℤ
to_int64 u = if ltb u (2 ^ 63) then pos u else negsuc (2 ^ 64 - 1 - u)

-- `u |= (~0ULL) << n` when bit n - 1 is set; `u` has n bits, so that `|` adds.
unfoldable pub sign_extend : ℕ → ℕ → ℕ
sign_extend n u = if u / 2 ^ (n - 1) % 2 == 1 then u + (2 ^ 64 - 2 ^ n) else u

unfoldable pub get_s : ℕ → BitReader → Option (ℤ × BitReader)
unfolding get_u to_int64 sign_extend
get_s n br = elim (get_u n br) [
  | none ↦ none
  | some (u, br') ↦ if n == 0 then some (pos 0, br') else some (to_int64 (sign_extend n u), br')
]

unfoldable pub skip : ℕ → BitReader → Option BitReader
skip nbits br =
    if ltb br.total_bits (br.bitpos + nbits)
    then none
    else some (record br { bitpos = br.bitpos + nbits })
