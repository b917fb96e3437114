-- ===== src/Bridge/Config/Gives.antt =====
-- A property of what a parser gives when it does not refuse the text.
use rtcmbridge.Base.{Bytes, Bool, true, false, ◌≡◌, refl, if◌then◌else◌}
use rtcmbridge.Bridge.Config.{Result, refused, parsed, ◌>>=◌}

-- A result that was not refused has the property.
pub data Gives {A : Type 0} (P : A → Type 0) : Result A → Type 0 where
  gives_nothing : (error : Bytes) → Gives P (refused error)
  gives : {a : A} → P a → Gives P (parsed a)

pub from_gives : {A : Type 0} {P : A → Type 0} {a : A} → Gives P (parsed a) → P a
from_gives (gives p) = p

pub if-Gives :
    {A : Type 0} {P : A → Type 0} (b : Bool) {r s : Result A}
    → (b ≡ true → Gives P r)
    → (b ≡ false → Gives P s)
    → Gives P (if b then r else s)
if-Gives true k l = k refl
if-Gives false k l = l refl

pub >>=-Gives :
    {A B : Type 0} {P : A → Type 0} {Q : B → Type 0} {r : Result A} (f : A → Result B)
    → Gives P r
    → ((a : A) → P a → Gives Q (f a))
    → Gives Q (r >>= f)
>>=-Gives f (gives_nothing error) k = gives_nothing error
>>=-Gives f (gives p) k = k _ p

pub Gives-any : {A : Type 0} (r : Result A) → Gives (λ a. a ≡ a) r
Gives-any (refused error) = gives_nothing error
Gives-any (parsed a) = gives refl
