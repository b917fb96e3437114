-- ===== src/Rtcm/Attempt.antt =====
-- A chain of reads that reports the first one that fails: `failed` carries the text that the
-- handler of src/rtcm_decoder_ntrip.cpp then writes.
use rtcmbridge.Base.{none, some, String}
use rtcmbridge.Rtcm.BitReader.{BitReader}
use rtcmbridge.Rtcm.Reading.{Read}

pub data Outcome (A : Type 0) : Type 0 where
  failed : String → Outcome A
  done : A → BitReader → Outcome A

abbrev pub Attempt : Type 0 → Type 0
Attempt A = BitReader → Outcome A

infixl 5 ◌>>=◌
abbrev pub ◌>>=◌ : {A B : Type 0} → Attempt A → (A → Attempt B) → Attempt B
◌>>=◌ m f br = elim (m br) [ failed message ↦ failed message | done a br' ↦ f a br' ]

abbrev pub return : {A : Type 0} → A → Attempt A
return = done

-- `if (!read) { oss << message; return true; }`
abbrev pub or_fail : {A : Type 0} → Read A → String → Attempt A
or_fail m message br = elim (m br) [ none ↦ failed message | some (a, br') ↦ done a br' ]
