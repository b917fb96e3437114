-- ===== src/Base/Calls.antt =====
-- Sequences of calls that change what is alive, each allowed only in some states.
use rtcmbridge.Base.{◌≡◌, refl, ap, ◌∙◌, Option, none, some, List, [], ◌∷◌, ◌++◌}

abbrev pub and_then : {S : Type 0} → Option S → (S → Option S) → Option S
and_then none f = none
and_then (some s) f = f s

module _ {C S : Type 0} (call : C → S → Option S) where
  abbrev pub after_calls : List C → S → Option S
  after_calls [] s = some s
  after_calls (c ∷ calls) s = and_then (call c s) (after_calls calls)

  and_then-after :
      (o : Option S) (xs ys : List C)
      → ((s : S) → after_calls (xs ++ ys) s ≡ and_then (after_calls xs s) (after_calls ys))
      → and_then o (after_calls (xs ++ ys))
        ≡ and_then (and_then o (after_calls xs)) (after_calls ys)
  and_then-after none xs ys h = refl
  and_then-after (some s) xs ys h = h s

  after_calls-append :
      (xs ys : List C) (s : S)
      → after_calls (xs ++ ys) s ≡ and_then (after_calls xs s) (after_calls ys)
  after_calls-append [] ys s = refl
  after_calls-append (x ∷ xs) ys s =
      and_then-after (call x s) xs ys (λ t. after_calls-append xs ys t)

  -- Calls that lead from `s` to `t` and then calls that lead from there to `u`.
  pub after_calls_trans :
      (xs ys : List C) (s t u : S)
      → after_calls xs s ≡ some t
      → after_calls ys t ≡ some u
      → after_calls (xs ++ ys) s ≡ some u
  after_calls_trans xs ys s t u h k =
      after_calls-append xs ys s ∙ ap (λ o. and_then o (after_calls ys)) h ∙ k
