-- ===== src/Rtcm/Messages/Descriptors/RoundTrip.antt =====
-- The messages 1007, 1008 and 1033 are written out as they were encoded, with a dot for each character
-- that cannot be printed.
use rtcmbridge.Base.{
  ℕ, suc, ◌^◌, ◌<◌, ◌≡◌, refl, List, [], ◌∷◌, ◌++◌, map, some, arith, Bytes, length, All,
  append_assoc,
}
use rtcmbridge.Rtcm.BitReader.{BitReader, get_u}
use rtcmbridge.Rtcm.BitReader.Bits.{to_bits}
use rtcmbridge.Rtcm.Output.{text, chars, num, Stream}
use rtcmbridge.Rtcm.Reading.{printable, read_ascii}
use rtcmbridge.Rtcm.Reading.Decodes.{At, Decodes, get_u-Decodes, >>=-Decodes, return-Decodes}
use rtcmbridge.Rtcm.Messages.Descriptors.{
  read_descriptor, antenna_serial, antenna_setup, decode_1007_1008, read_setup,
}

-- The characters of a text, a byte each.
unfoldable pub text_bits : Bytes → List ℕ
text_bits [] = []
text_bits (c ∷ s) = to_bits 8 c ++ text_bits s

-- A text whose length and whose characters fit a byte.
pub record IsText (s : Bytes) : Type 0 where
  pub short : length s < 2 ^ 8
  pub bytes : All (λ c. c < 2 ^ 8) s

-- The text that is shown for it.
abbrev pub shown : Bytes → Bytes
shown = map printable

read_ascii_step :
    (n c : ℕ) (br br1 br2 : BitReader) (out : Bytes)
    → get_u 8 br ≡ some (c, br1)
    → read_ascii n br1 ≡ (out, br2)
    → read_ascii (suc n) br ≡ (printable c ∷ out, br2)
unfolding read_ascii
read_ascii_step n c br br1 br2 out p q = rw (p, read_ascii) (rw q refl)

pub read_ascii-text_bits :
    (s : Bytes) (br : BitReader) (rest : List ℕ)
    → All (λ c. c < 2 ^ 8) s
    → At br (text_bits s ++ rest)
    → (br' : BitReader) × (read_ascii (length s) br ≡ (shown s, br')) × At br' rest
unfolding text_bits
read_ascii-text_bits [] br rest h a = (br, unfold read_ascii in refl, a)
read_ascii-text_bits (c ∷ s) br rest h a =
    let a' : At br (to_bits 8 c ++ (text_bits s ++ rest)) =
      rw (append_assoc (to_bits 8 c) (text_bits s) rest) at a in
    let (br1, p, a1) = (get_u-Decodes 8 c (omega arith) h.0).run br (text_bits s ++ rest) a' in
    let (br2, q, a2) = read_ascii-text_bits s br1 rest h.1 a1 in
    (br2, read_ascii_step (length s) c br br1 br2 (shown s) p q, a2)

-- Two fields at once.
unfoldable pub two_fields : ℕ → ℕ → ℕ → ℕ → List ℕ
two_fields m x n y = to_bits m x ++ (to_bits n y ++ [])

pub read_descriptor-Decodes :
    (stid n : ℕ)
    → stid < 2 ^ 12
    → n < 2 ^ 8
    → Decodes read_descriptor (two_fields 12 stid 8 n) (stid, n)
unfolding read_descriptor two_fields
read_descriptor-Decodes stid n p q =
    >>=-Decodes _ (get_u-Decodes 12 stid (omega arith) p)
      (>>=-Decodes _ (get_u-Decodes 8 n (omega arith) q) (return-Decodes _))

pub read_setup-Decodes :
    (setup n : ℕ)
    → setup < 2 ^ 8
    → n < 2 ^ 8
    → Decodes read_setup (two_fields 8 setup 8 n) (setup, n)
unfolding read_setup two_fields
read_setup-Decodes setup n p q =
    >>=-Decodes _ (get_u-Decodes 8 setup (omega arith) p)
      (>>=-Decodes _ (get_u-Decodes 8 n (omega arith) q) (return-Decodes _))

-- A length byte where the reader stands, and the text behind it.
pub sized_text :
    (s : Bytes) (br : BitReader) (rest : List ℕ)
    → IsText s
    → At br (to_bits 8 (length s) ++ (text_bits s ++ rest))
    → (br1 br2 : BitReader) × (get_u 8 br ≡ some (length s, br1))
      × (read_ascii (length s) br1 ≡ (shown s, br2))
      × At br2 rest
sized_text s br rest t a =
    let (br1, p, a1) =
      (get_u-Decodes 8 (length s) (omega arith) t.short).run br (text_bits s ++ rest) a in
    let (br2, q, a2) = read_ascii-text_bits s br1 rest t.bytes a1 in (br1, br2, p, q, a2)

pub record Antenna : Type 0 where
  pub stid : ℕ
  pub name : Bytes
  pub setup : ℕ
  pub stid_fits : stid < 2 ^ 12
  pub name_fits : IsText name
  pub setup_fits : setup < 2 ^ 8

-- The bits of the message behind its type, and then `rest`.
unfoldable pub antenna_bits : Antenna → List ℕ → List ℕ
unfolding two_fields
antenna_bits a rest =
    two_fields 12 a.stid 8 (length a.name) ++ (text_bits a.name ++ (to_bits 8 a.setup ++ rest))

unfoldable pub serial_bits : Antenna → Bytes → List ℕ → List ℕ
serial_bits a serial rest = antenna_bits a (to_bits 8 (length serial) ++ (text_bits serial ++ rest))

abbrev pub antenna_text : Antenna → Stream
antenna_text a =
    text " staid="
    ∷ num a.stid
    ∷ text " ant=\""
    ∷ chars (shown a.name)
    ∷ text "\" setup="
    ∷ num a.setup
    ∷ []

antenna_lem :
    (a : Antenna) (br : BitReader) (rest : List ℕ)
    → At br (antenna_bits a rest)
    → (br1 br2 br3 : BitReader) × (read_descriptor br ≡ some ((a.stid, length a.name), br1))
      × (read_ascii (length a.name) br1 ≡ (shown a.name, br2))
      × (get_u 8 br2 ≡ some (a.setup, br3))
      × At br3 rest
unfolding antenna_bits
antenna_lem a br rest at =
    let (br1, p, at1) =
      (read_descriptor-Decodes a.stid (length a.name) a.stid_fits a.name_fits.short).run br _ at in
    let (br2, q, at2) = read_ascii-text_bits a.name br1 _ a.name_fits.bytes at1 in
    let (br3, r, at3) = (get_u-Decodes 8 a.setup (omega arith) a.setup_fits).run br2 rest at2 in
    (br1, br2, br3, p, q, r, at3)

pub decode_1007-antenna_bits :
    (a : Antenna) (br : BitReader) (rest : List ℕ) (oss : Stream)
    → At br (antenna_bits a rest)
    → decode_1007_1008 1007 br oss ≡ some (oss ++ antenna_text a)
unfolding decode_1007_1008 antenna_setup
decode_1007-antenna_bits a br rest oss at =
    let (br1, br2, br3, p, q, r, _) = antenna_lem a br rest at in
    rw (p, decode_1007_1008) (rw q (rw (r, antenna_setup) refl))

pub decode_1008-serial_bits :
    (a : Antenna) (serial : Bytes) (br : BitReader) (rest : List ℕ) (oss : Stream)
    → IsText serial
    → At br (serial_bits a serial rest)
    → decode_1007_1008 1008 br oss
      ≡ some
          ((oss ++ antenna_text a) ++ (text " serial=\"" ∷ chars (shown serial) ∷ text "\"" ∷ []))
unfolding decode_1007_1008 antenna_setup serial_bits
decode_1008-serial_bits a serial br rest oss t at =
    let (br1, br2, br3, p, q, r, at3) = antenna_lem a br _ at in
    let (br4, br5, u, v, _) = sized_text serial br3 rest t at3 in
    rw (p, decode_1007_1008) (rw q (rw (r, antenna_setup) (rw (u, antenna_serial) (rw v refl))))
