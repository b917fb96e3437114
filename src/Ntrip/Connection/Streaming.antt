-- ===== src/Ntrip/Connection/Streaming.antt =====
-- What a connection of src/ntrip.cpp delivers once the headers of the response are complete.
use mathlib.Core.List.{flatten}
use rtcmbridge.Base.{
  ℕ, suc, ◌≡◌, refl, sym, ap, ◌∙◌, true, false, List, [], ◌∷◌, ◌++◌, arith, ◌==◌, Bytes, length,
  append_assoc, append-nil,
}
use rtcmbridge.Ntrip.Connection.{
  Connection, success, consume, handle_stream_bytes, on_read, read_more,
}

-- The socket's bytes, as successful reads bring them.
unfoldable pub receive : Connection → List Bytes → Connection
receive c [] = c
receive c (bytes ∷ more) = receive (on_read c success bytes) more

abbrev pub delivered_bytes : Connection → Bytes
delivered_bytes c = flatten c.delivered

pub flatten-concat :
    (ls : List Bytes) (bytes : Bytes) → flatten (ls ++ (bytes ∷ [])) ≡ flatten ls ++ bytes
unfolding flatten
flatten-concat [] bytes = append-nil bytes
flatten-concat (l ∷ ls) bytes =
    rw (flatten-concat ls bytes) (sym (append_assoc l (flatten ls) bytes))

-- Past the headers every byte goes to the consumer.
pub record Streams (c d : Connection) (bytes : Bytes) : Type 0 where
  pub handler : d.has_handler ≡ true
  pub complete : d.headers_complete ≡ true
  pub given : delivered_bytes d ≡ delivered_bytes c ++ bytes
  pub same_delay : d.delay ≡ c.delay

pub read_more-Streams :
    (c d : Connection) (bytes : Bytes) → Streams c d bytes → Streams c (read_more d) bytes
unfolding read_more
read_more-Streams c d bytes s = record {
  handler = s.handler;
  complete = s.complete;
  given = s.given;
  same_delay = s.same_delay;
}

consume-handler :
    (c : Connection) (bytes : Bytes)
    → c.has_handler ≡ true
    → consume c bytes ≡ record c { delivered = c.delivered ++ (bytes ∷ []) }
unfolding consume
consume-handler c bytes h = simp h

pub consume-Streams :
    (c : Connection) (bytes : Bytes)
    → c.has_handler ≡ true
    → c.headers_complete ≡ true
    → Streams c (consume c bytes) bytes
consume-Streams c bytes h k = rw (consume-handler c bytes h) (record {
  handler = h;
  complete = k;
  given = flatten-concat c.delivered bytes;
  same_delay = refl;
})

handle_complete :
    (c : Connection) (b : ℕ) (bytes : Bytes)
    → c.headers_complete ≡ true
    → handle_stream_bytes c (b ∷ bytes) ≡ consume c (b ∷ bytes)
unfolding handle_stream_bytes
handle_complete c b bytes k =
    let some_bytes : (suc (length bytes) == 0) ≡ false = ground arith in simp (some_bytes, k)

pub handle-nil : (c : Connection) → handle_stream_bytes c [] ≡ c
unfolding handle_stream_bytes
handle-nil c = refl

pub handle-Streams :
    (c : Connection) (bytes : Bytes)
    → c.has_handler ≡ true
    → c.headers_complete ≡ true
    → Streams c (handle_stream_bytes c bytes) bytes
handle-Streams c [] h k = rw (handle-nil c) (record {
  handler = h;
  complete = k;
  given = sym (append-nil (delivered_bytes c));
  same_delay = refl;
})
handle-Streams c (b ∷ bytes) h k =
    rw (handle_complete c b bytes k) (consume-Streams c (b ∷ bytes) h k)

pub Streams-trans :
    (c d e : Connection) (xs ys : Bytes) → Streams c d xs → Streams d e ys → Streams c e (xs ++ ys)
Streams-trans c d e xs ys s t = record {
  handler = t.handler;
  complete = t.complete;
  given = t.given ∙ ap (λ g. g ++ ys) s.given ∙ append_assoc (delivered_bytes c) xs ys;
  same_delay = t.same_delay ∙ s.same_delay;
}

-- Past the headers every byte goes to the consumer, in order.
pub receive-Streams :
    (c : Connection) (pieces : List Bytes)
    → c.has_handler ≡ true
    → c.headers_complete ≡ true
    → Streams c (receive c pieces) (flatten pieces)
unfolding receive flatten on_read
receive-Streams c [] h k = rw (handle-nil c) at (handle-Streams c [] h k)
receive-Streams c (bytes ∷ more) h k =
    let first = read_more-Streams c _ bytes (handle-Streams c bytes h k) in
    Streams-trans c (read_more (handle_stream_bytes c bytes)) _ bytes (flatten more) first
      (receive-Streams (read_more (handle_stream_bytes c bytes)) more first.handler first.complete)
