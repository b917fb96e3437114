-- ===== src/Rtcm/Client/Base64.antt =====
-- base64_encode of src/rtcm_decoder_ntrip.cpp is the encoding of RFC 4648.
use rtcmbridge.Base.{
  ℕ, zero, suc, ◌+◌, ◌*◌, ◌/◌, ◌%◌, ◌^◌, ◌<◌, ◌≡◌, refl, ap, [], ◌∷◌, ◌++◌, arith, Bytes, length,
  get_or, ◌==◌, Bool-cases, inl, inr,
}
use rtcmbridge.Rtcm.Crc.Residue.{IsBytes}
use rtcmbridge.Rtcm.Client.{b64, sextet, emit, base64_loop, pad, base64_encode}

-- The character of a group of six bits.
abbrev pub char_of : ℕ → ℕ
char_of n = get_or b64 n 0

-- Three bytes are 24 bits and make four characters; one byte or two at the end are filled up with zero
-- bits to whole characters and with `=` to four.
unfoldable pub rfc4648 : Bytes → Bytes
rfc4648 [] = []
rfc4648 (a ∷ []) = char_of (a / 4) ∷ char_of (a % 4 * 16) ∷ b'=' ∷ b'=' ∷ []
rfc4648 (a ∷ b ∷ []) =
    char_of (a / 4) ∷ char_of (a % 4 * 16 + b / 16) ∷ char_of (b % 16 * 4) ∷ b'=' ∷ []
rfc4648 (a ∷ b ∷ c ∷ s) =
    char_of (a / 4)
    ∷ char_of (a % 4 * 16 + b / 16)
    ∷ char_of (b % 16 * 4 + c / 64)
    ∷ char_of (c % 64)
    ∷ rfc4648 s

-- A byte shifted into the register.
abbrev shifted : ℕ → ℕ → ℕ
shifted val c = (val * 2 ^ 8 + c) % 2 ^ 32

sextet_first : (val a : ℕ) → a < 256 → sextet (shifted val a) 2 ≡ char_of (a / 4)
unfolding sextet
sextet_first val a h =
    let bits : shifted val a / 2 ^ 2 % 64 ≡ a / 4 = omega arith in ap char_of bits

sextet_second :
    (val a b : ℕ)
    → a < 256
    → b < 256
    → sextet (shifted (shifted val a) b) 4 ≡ char_of (a % 4 * 16 + b / 16)
unfolding sextet
sextet_second val a b h k =
    let bits : shifted (shifted val a) b / 2 ^ 4 % 64 ≡ a % 4 * 16 + b / 16 = omega arith in
    ap char_of bits

sextet_third :
    (val b c : ℕ)
    → b < 256
    → c < 256
    → sextet (shifted (shifted val b) c) 6 ≡ char_of (b % 16 * 4 + c / 64)
unfolding sextet
sextet_third val b c h k =
    let bits : shifted (shifted val b) c / 2 ^ 6 % 64 ≡ b % 16 * 4 + c / 64 = omega arith in
    ap char_of bits

sextet_fourth : (val c : ℕ) → c < 256 → sextet (shifted val c) 0 ≡ char_of (c % 64)
unfolding sextet
sextet_fourth val c h =
    let bits : shifted val c / 2 ^ 0 % 64 ≡ c % 64 = omega arith in ap char_of bits

-- What is left at the end is filled up with zero bits.
sextet_one :
    (val a : ℕ) → a < 256 → sextet (shifted val a * 2 ^ 8 % 2 ^ 32) 4 ≡ char_of (a % 4 * 16)
unfolding sextet
sextet_one val a h =
    let bits : shifted val a * 2 ^ 8 % 2 ^ 32 / 2 ^ 4 % 64 ≡ a % 4 * 16 = omega arith in
    ap char_of bits

sextet_two :
    (val b : ℕ) → b < 256 → sextet (shifted val b * 2 ^ 8 % 2 ^ 32) 6 ≡ char_of (b % 16 * 4)
unfolding sextet
sextet_two val b h =
    let bits : shifted val b * 2 ^ 8 % 2 ^ 32 / 2 ^ 6 % 64 ≡ b % 16 * 4 = omega arith in
    ap char_of bits

-- Four characters in front do not change the padding.
pad_group :
    (fuel w x y z : ℕ) (out : Bytes) → pad fuel (w ∷ x ∷ y ∷ z ∷ out) ≡ w ∷ x ∷ y ∷ z ∷ pad fuel out
unfolding pad
pad_group zero w x y z out = refl
pad_group (suc fuel) w x y z out =
    let same : length (w ∷ x ∷ y ∷ z ∷ out) % 4 ≡ length out % 4 = omega arith in
    elim (Bool-cases (length out % 4 == 0)) [
      | inl e ↦ rw (same, e) refl
      | inr e ↦ rw (same, e) (pad_group fuel w x y z (out ++ (61 ∷ [])))
    ]

pad-base64_loop : (val : ℕ) (s : Bytes) → IsBytes s → pad 3 (base64_loop val 0 s) ≡ rfc4648 s
unfolding base64_loop emit rfc4648
pad-base64_loop val [] h = unfold pad in refl
pad-base64_loop val (a ∷ []) h =
    rw (sextet_first val a h.0, sextet_one val a h.0) (unfold pad in refl)
pad-base64_loop val (a ∷ b ∷ []) h =
    rw (sextet_first val a h.0, sextet_second val a b h.0 h.1.0, sextet_two (shifted val a) b h.1.0)
      (unfold pad in refl)
pad-base64_loop val (a ∷ b ∷ c ∷ s) h =
    let val' = shifted (shifted (shifted val a) b) c in
    rw
      (
        sextet_first val a h.0,
        sextet_second val a b h.0 h.1.0,
        sextet_third (shifted val a) b c h.1.0 h.1.1.0,
        sextet_fourth (shifted (shifted val a) b) c h.1.1.0,
        pad_group 3,
        pad-base64_loop val' s h.1.1.1,
      )
      refl

-- The credentials are encoded as RFC 4648 says, whatever bytes they hold.
pub base64_encode-rfc4648 : (s : Bytes) → IsBytes s → base64_encode s ≡ rfc4648 s
base64_encode-rfc4648 s h = pad-base64_loop 0 s h
