-- ===== src/Tests/Reading.antt =====
-- `BitReader` and the check sum of src/rtcm_decoder_ntrip.cpp on concrete bytes.
use rtcmbridge.Base.{◌≡◌, ◌≢◌, refl, [], ◌∷◌, arith, Bytes, some}
use rtcmbridge.Base.Int.{pos, negsuc}
use rtcmbridge.Rtcm.BitReader.{BitReader, get_u, get_s}
use rtcmbridge.Rtcm.BitReader.Bits.{to_bits}
use rtcmbridge.Rtcm.BitReader.Value.{IsValid, advance}
use rtcmbridge.Rtcm.BitReader.Fields.{get_u-to_bits, get_s-to_bits}
use rtcmbridge.Rtcm.Crc.{crc24q, crc_loop, crc_byte, crc_bits, crc_bit}
use rtcmbridge.Rtcm.Crc.Residue.{IsBytes}
use rtcmbridge.Rtcm.Crc.Detect.{crc24q-detects}

-- A station description of RTCM 10403: message 1005 with its header.
abbrev pub sample : Bytes
sample =
    0xD3 ∷ 0x00 ∷ 0x13 ∷ 0x3E ∷ 0xD7 ∷ 0xD3 ∷ 0x02 ∷ 0x02 ∷ 0x98 ∷ 0x0E ∷ 0xDE ∷ 0xEF ∷ 0x34 ∷ 0xB4
    ∷ 0xBD ∷ 0x62 ∷ 0xAC ∷ 0x09 ∷ 0x41 ∷ 0x98 ∷ 0x6F ∷ 0x33 ∷ []

sample_crc : crc24q sample ≡ 0x360B98
unfolding crc24q crc_loop crc_byte crc_bits crc_bit
sample_crc = refl

abbrev reader : BitReader
reader = record { bytes = 0x3E ∷ 0xD7 ∷ 0xD3 ∷ []; total_bits = 24; bitpos = 0 }

abbrev reader-IsValid : IsValid reader
reader-IsValid = record { total = refl; within = omega arith }

sample_type : get_u 12 reader ≡ some (1005, advance reader 12)
unfolding get_u
sample_type = refl

sample_signed : get_s 12 (advance reader 12) ≡ some (pos 2003, advance reader 24)
unfolding get_s
sample_signed = refl

get_u-to_bits_example : get_u 12 reader ≡ some (1005, advance reader 12)
get_u-to_bits_example =
    get_u-to_bits 12 1005 reader reader-IsValid (omega arith) (omega arith)
      record { before = []; after = to_bits 12 2003; splits = refl; here = refl }

abbrev negative : BitReader
negative = record { bytes = 0x0F ∷ 0xFE ∷ []; total_bits = 16; bitpos = 4 }

get_s-to_bits_example : get_s 12 negative ≡ some (negsuc 1, advance negative 12)
get_s-to_bits_example =
    get_s-to_bits 11 (negsuc 1) negative record { total = refl; within = omega arith } (omega arith)
      (omega arith) record { before = 0 ∷ 0 ∷ 0 ∷ 0 ∷ []; after = []; splits = refl; here = refl }

abbrev short-IsBytes : IsBytes (0xD3 ∷ 0 ∷ 1 ∷ [])
short-IsBytes = (omega arith, (omega arith, (omega arith, tt)))

crc24q-detects_example : crc24q (0xD3 ∷ 0 ∷ 1 ∷ 7 ∷ []) ≢ crc24q (0xD3 ∷ 0 ∷ 1 ∷ 8 ∷ [])
crc24q-detects_example =
    crc24q-detects (0xD3 ∷ 0 ∷ 1 ∷ []) [] 7 8 short-IsBytes tt (omega arith) (omega arith)
      (omega arith)
