-- ===== src/Rtcm/Program/Decodes.antt =====
-- What src/rtcm_decoder_ntrip.cpp prints, from its arguments to the lines.
use mathlib.Core.List.{flatten}
use rtcmbridge.Base.{arith, ◌+◌, ◌≡◌, refl, ap, ◌∙◌, false, some, List, [], ◌∷◌, Bytes, drop, ℕ}
use rtcmbridge.Base.Int.{ℤ}
use rtcmbridge.Rtcm.Framer.{new_framer, push}
use rtcmbridge.Rtcm.Framer.Split.{Pieces, new_framer-IsSettled}
use rtcmbridge.Rtcm.Framer.Frames.{AllSendable, stream_of, after_frames, push-stream_of}
use rtcmbridge.Rtcm.Client.{
  Client, connect, on_resolved, on_connected, on_written, send_request, read_loop,
}
use rtcmbridge.Rtcm.Client.Feeding.{Waits, Accepts, receive, receive-Feeds}
use rtcmbridge.Base.Text.{find}
use rtcmbridge.Rtcm.Program.{stoi, new_client, started, with_port, main}

-- The host is resolved, the connection made and the request written.
abbrev pub established : Client → Client
established c = on_written (on_connected (on_resolved c false) false) false

established-Waits :
    (host : Bytes) (port : ℤ) (mountpoint user pass : Bytes)
    → Waits (established (connect (new_client host port mountpoint user pass))) [] new_framer
unfolding on_resolved on_connected on_written send_request read_loop connect new_client find
established-Waits host port mountpoint user pass = record {
  pending = refl;
  held = refl;
  unended = refl;
  idle = refl;
}

-- When the port is an `int`, main starts a client, and once its connection is made, however the response
-- of a caster that accepts the request arrives, with a stream of correct frames behind the header, exactly
-- the payloads of these frames are decoded and printed, in order, and none counts as bad.
pub main-decodes :
    (name host port mountpoint user pass : Bytes) (n : ℤ) (pieces : List Bytes) (i : ℕ)
    (items : List (Bytes × Bytes))
    → stoi port ≡ some n
    → Pieces pieces
    → Accepts (flatten pieces) i
    → drop (i + 4) (flatten pieces) ≡ stream_of items
    → AllSendable items
    → (c : Client) × (main (name ∷ host ∷ port ∷ mountpoint ∷ user ∷ pass ∷ []) ≡ started c)
      × ((receive (established c) pieces).framer ≡ after_frames new_framer items)
unfolding main with_port
main-decodes name host port mountpoint user pass n pieces i items h p a body sendable =
    let c = connect (new_client host n mountpoint user pass) in
    let feeds =
      receive-Feeds (established c) [] new_framer pieces i
        (established-Waits host n mountpoint user pass) a new_framer-IsSettled tt p in
    (
      c,
      ap (with_port host mountpoint user pass) h,
      feeds.fed
          ∙ ap (push new_framer) body
          ∙ push-stream_of new_framer items refl (omega arith) sendable,
    )
