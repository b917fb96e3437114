-- ===== src/Rtcm/Output.antt =====
-- What the decoders insert into their `std::ostringstream`: the stream is the list of the values
-- inserted, in order. The text that the library makes of a number is not modelled. A `double` is
-- the expression that computes it, each node one operation of the source.
use rtcmbridge.Base.{ℕ, List, String, Bytes}
use rtcmbridge.Base.Int.{ℤ}

pub data Real : Type 0 where
  of_ℕ : ℕ → Real
  of_ℤ : ℤ → Real
  -- `decimal m e` is the literal m * 10^-e, and `ldexp e` is std::ldexp(1.0, -e).
  decimal : ℕ → ℕ → Real
  ldexp : ℕ → Real
  add mul div : Real → Real → Real

pub data Piece : Type 0 where
  text : String → Piece
  chars : Bytes → Piece
  num : ℕ → Piece
  int : ℤ → Piece
  -- A double in the stream's default format, and one by `fmt_double` with so many digits.
  real : Real → Piece
  fixed : Real → ℕ → Piece
  -- `fmt_prn`: the constellation's letter and the satellite in two digits.
  prn : ℕ → ℕ → Piece

abbrev pub Stream : Type 0
Stream = List Piece
