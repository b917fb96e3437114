-- ===== src/Rtcm/Reading.antt =====
-- Chains of reads, `br.getU(a, x) && br.getU(b, y) && …`, and `read_ascii`.
pub mod Decodes
use rtcmbridge.Base.{
  ℕ, zero, suc, Bool, ◌&&◌, Option, none, some, [], ◌∷◌, leb, if◌then◌else◌, Bytes,
}
use rtcmbridge.Rtcm.Output.{Stream}
use rtcmbridge.Rtcm.BitReader.{BitReader, get_u, skip}

-- A read that may fail. The reader of a failed read is not used again.
abbrev pub Read : Type 0 → Type 0
Read A = BitReader → Option (A × BitReader)

infixl 5 ◌>>=◌ ◌>>◌
abbrev pub ◌>>=◌ : {A B : Type 0} → Read A → (A → Read B) → Read B
◌>>=◌ m f br = elim (m br) [ none ↦ none | some (a, br') ↦ f a br' ]

abbrev pub ◌>>◌ : {B : Type 0} → Read (Unit {0}) → Read B → Read B
m >> k = m >>= λ _. k

abbrev pub return : {A : Type 0} → A → Read A
return a br = some (a, br)

abbrev pub skip_bits : ℕ → Read (Unit {0})
skip_bits n br = elim (skip n br) [ none ↦ none | some br' ↦ some (tt, br') ]

-- `std::isprint` in the C locale.
unfoldable pub is_print : ℕ → Bool
is_print c = leb 0x20 c && leb c 0x7E

unfoldable pub printable : ℕ → ℕ
unfolding is_print
printable c = if is_print c then c else b'.'

-- The loop of `read_ascii` stops at the first byte that is not there.
unfoldable pub read_ascii : ℕ → BitReader → Bytes × BitReader
read_ascii zero br = ([], br)
read_ascii (suc chars) br = elim (get_u 8 br) [
  | none ↦ ([], br)
  | some (c, br') ↦ let (out, last) = read_ascii chars br' in (printable c ∷ out, last)
]

-- A handler that returns false has read and written nothing: it is `none`. One that returns true is
-- `some` of the stream that it leaves.
abbrev pub Handler : Type 0
Handler = ℕ → BitReader → Stream → Option Stream
