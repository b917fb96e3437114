-- ===== src/Rtcm/Msm/Yields.antt =====
-- Fields that an encoder has put into a buffer are read back by a chain of reads of `decode_msm`,
-- src/rtcm_decoder_ntrip.cpp.
use rtcmbridge.Base.{
  ℕ, zero, suc, ◌≤◌, ◌<◌, ◌≡◌, refl, Bool, true, false, none, some, Option, List, [], ◌++◌, String,
  arith, if◌then◌else◌,
}
use rtcmbridge.Base.Int.{ℤ}
use rtcmbridge.Rtcm.BitReader.{BitReader, get_s}
use rtcmbridge.Rtcm.BitReader.Bits.{to_bits}
use rtcmbridge.Rtcm.BitReader.Fields.{pattern_of, InSigned}
use rtcmbridge.Rtcm.Reading.{Read}
use rtcmbridge.Rtcm.Reading.Decodes.{At, Decodes, get_s-Decodes, regroup}
use rtcmbridge.Rtcm.Attempt.{Outcome, failed, done, Attempt, ◌>>=◌, return, or_fail}
use rtcmbridge.Rtcm.Msm.Cells.{Level, when_rate}

-- Where `field` stands, `m` reads `a` from it and stops behind it.
pub record Yields {A : Type 0} (m : Attempt A) (field : List ℕ) (a : A) : Type 0 where
  pub run :
      (br : BitReader) (rest : List ℕ)
      → At br (field ++ rest)
      → (br' : BitReader) × (m br ≡ done a br') × At br' rest

read_ok :
    {A : Type 0} (r : Option (A × BitReader)) (message : String) {a : A} {br' : BitReader}
    → r ≡ some (a, br')
    → ◌≡◌ {A = Outcome A}
        (elim r [ none ↦ failed message | some (x, next) ↦ done x next ])
        (done a br')
read_ok r message p = rw p refl

pub or_fail-Yields :
    {A : Type 0} {m : Read A} {f : List ℕ} {a : A} (message : String)
    → Decodes m f a
    → Yields (or_fail m message) f a
or_fail-Yields {m = m} message d = record {
  run = λ br rest at_f.
      let (br', p, at_rest) = d.run br rest at_f in (br', read_ok (m br) message p, at_rest);
}

chained :
    {A B : Type 0} (r : Outcome A) (k : A → Attempt B) {a : A} {br1 : BitReader} {last : Outcome B}
    → r ≡ done a br1
    → k a br1 ≡ last
    → elim r [ failed message ↦ failed message | done x next ↦ k x next ] ≡ last
chained r k p q = rw p q

pub >>=-Yields :
    {A B : Type 0} {m : Attempt A} (k : A → Attempt B) {f g : List ℕ} {a : A} {b : B}
    → Yields m f a
    → Yields (k a) g b
    → Yields (m >>= k) (f ++ g) b
>>=-Yields {m = m} k {f = f} {g = g} d e = record {
  run = λ br rest at_f.
      let (br1, p, at_g) = d.run br (g ++ rest) (regroup br f g rest at_f) in
      let (br2, q, at_rest) = e.run br1 rest at_g in (br2, chained (m br) k p q, at_rest);
}

pub return-Yields : {A : Type 0} (a : A) → Yields (return a) [] a
return-Yields a = record { run = λ br rest at_rest. (br, refl, at_rest) }

if-Yields :
    {A : Type 0} {m : Attempt A} {f : List ℕ} {a : A} (unread : A) (rate : Bool)
    → Yields m f a
    → Yields
        (if rate then m else return unread)
        (if rate then f else [])
        (if rate then a else unread)
if-Yields unread true y = y
if-Yields unread false y = return-Yields unread

-- The bits of a field that only messages with a phase rate have.
abbrev pub rate_bits : Level → List ℕ → List ℕ
rate_bits level field = if level.with_phase_rate then field else []

pub when_rate-Yields :
    {A : Type 0} {m : Attempt A} {f : List ℕ} {a : A} (level : Level) (unread : A)
    → Yields m f a
    → Yields
        (when_rate level unread m)
        (rate_bits level f)
        (if level.with_phase_rate then a else unread)
when_rate-Yields level unread y = if-Yields unread level.with_phase_rate y

-- The width of a signed field.
abbrev pub IsWidth : ℕ → Type 0
IsWidth n = (0 < n) × (n ≤ 63)

pub if-IsWidth : (b : Bool) (m n : ℕ) → IsWidth m → IsWidth n → IsWidth (if b then m else n)
if-IsWidth true m n h k = h
if-IsWidth false m n h k = k

pub signed-Decodes :
    (n : ℕ) (z : ℤ) → IsWidth n → InSigned n z → Decodes (get_s n) (to_bits n (pattern_of n z)) z
signed-Decodes zero z w h = absurd (omega (arith, w.0))
signed-Decodes (suc m) z w h = get_s-Decodes m z (omega (arith, w.1)) h
