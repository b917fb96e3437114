-- ===== src/Bridge/Ntrip2nats/Publishes.antt =====
-- What a session of src/ntrip2nats.cpp publishes, from the start in `main` on.
use mathlib.Core.List.{flatten}
use rtcmbridge.Base.{
  ℕ, ◌+◌, ◌≡◌, refl, ap, sym, ◌∙◌, Option, List, [], ◌++◌, Bytes, drop, length, arith, codes, false,
  not, ◌&&◌, ◌==◌,
}
use rtcmbridge.Base.Text.{find}
use rtcmbridge.Ntrip.Options.{Options, NtripSource}
use rtcmbridge.Ntrip.Connection.{
  Connection, success, on_resolved, on_connected, on_written, send_request, read_more, base64,
  credentials,
}
use rtcmbridge.Ntrip.Connection.Delivery.{Waits, Accepts, receive-Accepts}
use rtcmbridge.Ntrip.Connection.Streaming.{receive}
use rtcmbridge.Bridge.Publisher.Published.{handle_all, handle_all-Publishes, succeeding}
use rtcmbridge.Bridge.Ntrip2nats.Streams.{publisher_of, connection_of}

module _ (encode_block : Bytes → Option Bytes) where
  -- The host is resolved, the connection made and the request written.
  abbrev pub established : Connection → Connection
  established c = on_written (on_connected encode_block (on_resolved c success) success) success

  -- The credentials can be encoded, or there are none.
  abbrev pub CanEncode : NtripSource → Type 0
  CanEncode s =
      (not (length (credentials encode_block s) == 0)
        && length (base64 encode_block (credentials encode_block s)) == 0)
      ≡ false

  abbrev Waiting : Connection → Type 0
  Waiting c = Waits c × (c.delivered ≡ []) × (c.response_buffer ≡ [])

  established-Waiting :
      (options : Options) (source : NtripSource)
      → CanEncode source
      → Waiting (established (connection_of options source))
  unfolding on_resolved on_connected on_written send_request read_more find
  established-Waiting options source h =
      simp h (record { handler = refl; incomplete = refl; unended = refl }, refl, refl)

  -- Where the credentials can be encoded, then from the start of a session of a source on, once its
  -- connection is made, however the response of a caster that accepts the request arrives, and whatever
  -- each of the publications returns: the session calls natsConnection_Publish with exactly the bytes
  -- behind the headers, in order, on the subject NTRIP. and the mountpoint's name, a chunk that is
  -- delivered at a time, and what is published are exactly the chunks whose call has returned NATS_OK.
  -- A chunk whose call fails is not offered again.
  pub session-publishes :
      (status : ℕ → Option Bytes) (options : Options) (source : NtripSource) (pieces : List Bytes)
      (i : ℕ)
      → CanEncode source
      → Accepts (flatten pieces) i
      → let c = receive (established (connection_of options source)) pieces in
        let t = handle_all status (publisher_of options source) c.delivered in
        (t.offered ≡ c.delivered)
        × (flatten t.offered ≡ drop (i + 4) (flatten pieces))
        × (t.published ≡ succeeding status t.offered)
        × (t.subject ≡ codes "NTRIP." ++ source.name)
  unfolding flatten
  session-publishes status options source pieces i h a =
      let c = established (connection_of options source) in
      let (w, fresh, empty) = established-Waiting options source h in
      let a' : Accepts (c.response_buffer ++ flatten pieces) i = rw empty a in
      let chunks = (receive c pieces).delivered in
      let body : flatten chunks ≡ drop (i + 4) (flatten pieces) =
        (receive-Accepts c pieces i w a').given
        ∙ ap (λ (d : List Bytes). flatten d ++ drop (i + 4) (c.response_buffer ++ flatten pieces))
            fresh
        ∙ ap (λ (b : Bytes). drop (i + 4) (b ++ flatten pieces)) empty in
      let p = handle_all-Publishes status (publisher_of options source) chunks (omega arith) in
      (
        p.offered,
        ap flatten p.offered ∙ body,
        p.published ∙ ap (succeeding status) (sym p.offered),
        p.same_subject,
      )
