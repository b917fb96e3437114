-- ===== src/Tests/Subscribing.antt =====
-- What src/rtcm_decoder_nats.cpp adds to the decoder, on concrete inputs.
use mathlib.Core.List.{flatten}
use rtcmbridge.Base.{◌≡◌, refl, none, some, [], ◌∷◌, arith, codes}
use rtcmbridge.Base.Int.{pos}
use rtcmbridge.Base.Text.{find}
use rtcmbridge.Rtcm.Framer
use rtcmbridge.Rtcm.Framer.{new_framer}
use rtcmbridge.Rtcm.Nats.{push_back, split_loop, split_csv, Nats, main}
use rtcmbridge.Rtcm.Nats.Servers.{split_csv-joined}
use rtcmbridge.Rtcm.Nats.Lifetime.{in_use, IsClean, main-IsClean, main-framer}

split_csv-joined_example : split_csv (codes "a,,b") ≡ codes "a" ∷ codes "b" ∷ []
split_csv-joined_example =
    split_csv-joined (codes "a") ([] ∷ codes "b" ∷ []) (omega arith) (omega arith)

-- A server that runs, and the message comes in two parts.
abbrev server : Nats
server = record {
  created = none;
  servers_set = none;
  connected = none;
  subscribed = none;
  messages =
      record { bytes = 0xD3 ∷ 0 ∷ []; len = pos 2 }
      ∷ record { bytes = 1 ∷ 7 ∷ []; len = pos 2 }
      ∷ [];
}

-- The server refuses the subscription.
abbrev refusing : Nats
refusing = record server { subscribed = some (codes "Timeout") }

main-IsClean_example : IsClean (main refusing (codes "M" ∷ codes "a" ∷ [])) (in_use [])
main-IsClean_example = main-IsClean refusing (codes "M" ∷ codes "a" ∷ [])

main-framer_example :
    ((main server (codes "M" ∷ codes "a" ∷ [])).code ≡ 0)
    × ((main server (codes "M" ∷ codes "a" ∷ [])).framer
        ≡ Framer.push new_framer (0xD3 ∷ 0 ∷ 1 ∷ 7 ∷ []))
unfolding split_csv split_loop push_back find flatten
main-framer_example =
    main-framer server (codes "M") (codes "a") (codes "a") []
      record { created = refl; servers_set = refl; connected = refl; subscribed = refl } refl
      (refl, (refl, tt)) (omega arith)
