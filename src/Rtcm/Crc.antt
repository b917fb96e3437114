-- ===== src/Rtcm/Crc.antt =====
-- `crc24q` of src/rtcm_decoder_ntrip.cpp: CRC-24Q in a 32-bit register.
pub mod Residue
pub mod Detect
use rtcmbridge.Base.{
  ℕ, zero, suc, ◌*◌, ◌/◌, ◌%◌, ◌^◌, List, [], ◌∷◌, bit_xor, ◌==◌, if◌then◌else◌, Bytes,
}

abbrev pub poly : ℕ
poly = 0x1864CFB

-- One round of the inner loop: `crc <<= 1; if (crc & 0x1000000U) crc ^= poly;`
unfoldable pub crc_bit : ℕ → ℕ
crc_bit crc =
    let shifted = crc * 2 % 2 ^ 32 in
    if shifted / 2 ^ 24 % 2 == 1 then bit_xor shifted poly else shifted

-- `n` rounds of it.
unfoldable pub crc_bits : ℕ → ℕ → ℕ
crc_bits zero crc = crc
crc_bits (suc n) crc = crc_bits n (crc_bit crc)

-- One round of the outer loop: `crc ^= data[i] << 16`, and eight rounds of the inner one.
unfoldable pub crc_byte : ℕ → ℕ → ℕ
crc_byte crc byte = crc_bits 8 (bit_xor crc (byte * 2 ^ 16 % 2 ^ 32))

unfoldable pub crc_loop : ℕ → Bytes → ℕ
crc_loop crc [] = crc
crc_loop crc (byte ∷ bytes) = crc_loop (crc_byte crc byte) bytes

unfoldable pub crc24q : Bytes → ℕ
crc24q bytes = crc_loop 0 bytes % 2 ^ 24
