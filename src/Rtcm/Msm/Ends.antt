-- ===== src/Rtcm/Msm/Ends.antt =====
-- A property of what a chain of reads gives when none of them fails.
use rtcmbridge.Base.{String, Option, none, some, ◌≡◌, refl}
use rtcmbridge.Rtcm.BitReader.{BitReader}
use rtcmbridge.Rtcm.Reading.{Read}
use rtcmbridge.Rtcm.Attempt.{Outcome, failed, done, Attempt}

pub data Ends {A : Type 0} (P : A → Type 0) : Outcome A → Type 0 where
  ends_nowhere : (message : String) → Ends P (failed message)
  ends : {a : A} (br : BitReader) → P a → Ends P (done a br)

pub from_ends : {A : Type 0} {P : A → Type 0} {a : A} {br : BitReader} → Ends P (done a br) → P a
from_ends (ends br p) = p

pub >>=-Ends :
    {A B : Type 0} {P : A → Type 0} {Q : B → Type 0} {r : Outcome A} (f : A → Attempt B)
    → Ends P r
    → ((a : A) (br : BitReader) → P a → Ends Q (f a br))
    → Ends Q (elim r [ failed message ↦ failed message | done a br' ↦ f a br' ])
>>=-Ends f (ends_nowhere message) k = ends_nowhere message
>>=-Ends f (ends br p) k = k _ br p

-- A chain of reads of which nothing is known.
pub Ends-any : {A : Type 0} (r : Outcome A) → Ends (λ (a : A). a ≡ a) r
Ends-any (failed message) = ends_nowhere message
Ends-any (done a br) = ends br refl

-- The same of a chain that reports no text.
pub data Reads {A : Type 0} (P : A → Type 0) : Option (A × BitReader) → Type 0 where
  reads_nothing : Reads P none
  reads : {a : A} (br : BitReader) → P a → Reads P (some (a, br))

pub >>=-Reads :
    {A B : Type 0} {P : A → Type 0} {Q : B → Type 0} {r : Option (A × BitReader)} (f : A → Read B)
    → Reads P r
    → ((a : A) (br : BitReader) → P a → Reads Q (f a br))
    → Reads Q (elim r [ none ↦ none | some (a, br') ↦ f a br' ])
>>=-Reads f reads_nothing k = reads_nothing
>>=-Reads f (reads br p) k = k _ br p

pub Reads-any : {A : Type 0} (r : Option (A × BitReader)) → Reads (λ (a : A). a ≡ a) r
Reads-any none = reads_nothing
Reads-any (some (a, br)) = reads br refl

pub Reads-Ends :
    {A : Type 0} {P : A → Type 0} {r : Option (A × BitReader)} (message : String)
    → Reads P r
    → Ends P (elim r [ none ↦ failed message | some (a, br') ↦ done a br' ])
Reads-Ends message reads_nothing = ends_nowhere message
Reads-Ends message (reads br p) = ends br p
