-- ===== src/Bridge/Session/Order.antt =====
-- Sublists: what is left of a sequence when elements are taken out and the order is kept.
use rtcmbridge.Base.{List, [], ◌∷◌, ◌++◌, ◌≡◌}

pub data Sublist {A : Type 0} : List A → List A → Type 0 where
  done : Sublist [] []
  keep : {x : A} {xs ys : List A} → Sublist xs ys → Sublist (x ∷ xs) (x ∷ ys)
  omit : {y : A} {xs ys : List A} → Sublist xs ys → Sublist xs (y ∷ ys)

pub Sublist-refl : {A : Type 0} → (xs : List A) → Sublist xs xs
Sublist-refl [] = done
Sublist-refl (x ∷ xs) = keep (Sublist-refl xs)

pub Sublist-trans : {A : Type 0} {xs ys zs : List A} → Sublist xs ys → Sublist ys zs → Sublist xs zs
Sublist-trans s (omit t) = omit (Sublist-trans s t)
Sublist-trans (keep s) (keep t) = keep (Sublist-trans s t)
Sublist-trans (omit s) (keep t) = omit (Sublist-trans s t)
Sublist-trans done done = done

pub Sublist-snoc :
    {A : Type 0} {xs ys : List A} (z : A)
    → Sublist xs ys
    → Sublist (xs ++ (z ∷ [])) (ys ++ (z ∷ []))
Sublist-snoc z done = keep done
Sublist-snoc z (keep s) = keep (Sublist-snoc z s)
Sublist-snoc z (omit s) = omit (Sublist-snoc z s)

skip_front : {A : Type 0} → (ys zs : List A) → Sublist zs (ys ++ zs)
skip_front [] zs = Sublist-refl zs
skip_front (y ∷ ys) zs = omit (skip_front ys zs)

-- The elements in the middle may go.
pub Sublist-middle : {A : Type 0} → (xs ys zs : List A) → Sublist (xs ++ zs) (xs ++ (ys ++ zs))
Sublist-middle [] ys zs = skip_front ys zs
Sublist-middle (x ∷ xs) ys zs = keep (Sublist-middle xs ys zs)

pub Sublist-from : {A : Type 0} {xs ys zs : List A} → xs ≡ ys → Sublist ys zs → Sublist xs zs
Sublist-from e s = rw e s
