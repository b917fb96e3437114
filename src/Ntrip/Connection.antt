-- ===== src/Ntrip/Connection.antt =====
-- `ntripConnection` of src/ntrip.cpp, the consuming side: each member function and each
-- completion handler is a function from the connection to the connection. What they ask of asio
-- is written to `asked`, and what they hand to the consumer to `delivered`.
pub mod Streaming
pub mod Delivery
pub mod Refused
pub mod Backoff
use rtcmbridge.Base.{
  ℕ, zero, suc, ◌+◌, ◌*◌, min, Bool, true, false, not, ◌&&◌, ◌||◌, Option, none, some, List, [],
  ◌∷◌, ◌++◌, ◌==◌, ltb, if◌then◌else◌, Bytes, codes, length, take, drop,
}
use rtcmbridge.Base.Text.{starts_with, find}
use rtcmbridge.Ntrip.Options.{Options, NtripSource}

-- What a handler learns from `ec`.
pub data Ec : Type 0 where
  success aborted error : Ec

-- Calls of asio. `resolve`, `open`, `write`, `read` and `wait` are the asynchronous ones.
pub data Ask : Type 0 where
  resolve : Bytes → ℕ → Ask
  open_socket read : Ask
  write : Bytes → Ask
  wait : ℕ → Ask
  cancel_resolver cancel_timer cancel_socket close_socket : Ask

pub record Connection : Type 0 where
  pub options : Options
  pub source : NtripSource
  pub has_handler : Bool
  pub request : Bytes
  pub response_buffer : Bytes
  pub headers_complete : Bool
  pub delay : ℕ
  pub has_timer : Bool
  pub asked : List Ask
  pub delivered : List Bytes

-- The constructor.
unfoldable pub new_connection : Options → NtripSource → Connection
new_connection options source = record {
  options = options;
  source = source;
  has_handler = false;
  request = [];
  response_buffer = [];
  headers_complete = false;
  delay = options.reconnect_min_sec;
  has_timer = false;
  asked = [];
  delivered = [];
}

abbrev pub ask : Connection → List Ask → Connection
ask c calls = record c { asked = c.asked ++ calls }

unfoldable pub connect : Connection → Connection
connect c =
    ask (record c { headers_complete = false; response_buffer = [] })
      (resolve c.source.host c.source.port ∷ [])

abbrev cancels : Connection → List Ask
cancels c =
    (cancel_resolver ∷ [])
    ++ ((if c.has_timer then cancel_timer ∷ [] else []) ++ (cancel_socket ∷ close_socket ∷ []))

-- The `int` product `delay_ * 2` overflows for a delay from 2^30 seconds on: the model is that of
-- shorter delays.
unfoldable pub reconnect : Connection → Connection
reconnect c =
    let delay = min (c.delay * 2) c.options.reconnect_max_sec in
    ask
      (record c { headers_complete = false; response_buffer = []; delay = delay; has_timer = true })
      (cancels c ++ (wait delay ∷ []))

unfoldable pub consume : Connection → Bytes → Connection
consume c bytes = if c.has_handler then record c { delivered = c.delivered ++ (bytes ∷ []) } else c

unfoldable pub crlf : Bytes
crlf = codes "\r\n"

-- The end of a response's headers.
abbrev pub blank_line : Bytes
blank_line = codes "\r\n\r\n"

abbrev pub is_some : Option ℕ → Bool
is_some none = false
is_some (some _) = true

-- `headers.substr(0, line_end)`, the whole text for npos.
abbrev pub prefix_to : Option ℕ → Bytes → Bytes
prefix_to none s = s
prefix_to (some n) s = take n s

unfoldable pub response_ok : Bytes → Bool
unfolding crlf find
response_ok headers =
    let status_line = prefix_to (find crlf headers) headers in
    is_some (find (codes " 200 ") status_line) || starts_with (codes "ICY 200") status_line

-- What `handle_stream_bytes` does with the buffer once its headers end at `headers_end`.
unfoldable pub handle_headers : Connection → ℕ → Connection
handle_headers c headers_end =
    let offset = headers_end + 4 in
    if not (response_ok (take offset c.response_buffer))
    then reconnect c
    else let ready = record c { headers_complete = true } in
      let payload = drop offset c.response_buffer in
      let fed = if ltb offset (length c.response_buffer) then consume ready payload else ready in
      record fed { response_buffer = [] }

unfoldable pub handle_stream_bytes : Connection → Bytes → Connection
handle_stream_bytes c bytes =
    if length bytes == 0
    then c
    else if c.headers_complete
    then consume c bytes
    else let c' = record c { response_buffer = c.response_buffer ++ bytes } in
      elim (find blank_line c'.response_buffer) [
        | none ↦ c'
        | some headers_end ↦ handle_headers c' headers_end
      ]

unfoldable pub read_more : Connection → Connection
read_more c = ask c (read ∷ [])

-- The completion handler of `async_read_some`.
unfoldable pub on_read : Connection → Ec → Bytes → Connection
unfolding read_more
on_read c aborted bytes = c
on_read c success bytes = read_more (handle_stream_bytes c bytes)
on_read c error bytes = reconnect c

-- The completion handler of `async_write`.
unfoldable pub on_written : Connection → Ec → Connection
unfolding read_more
on_written c aborted = c
on_written c success = read_more c
on_written c error = reconnect c

-- The completion handler of the timer's `async_wait`: every other error connects.
unfoldable pub on_timer : Connection → Ec → Connection
on_timer c aborted = c
on_timer c _ = connect c

-- `EVP_EncodeBlock` of OpenSSL, `none` when it has written nothing.
module _ (encode_block : Bytes → Option Bytes) where
  unfoldable pub base64 : Bytes → Bytes
  base64 [] = []
  base64 (b ∷ bytes) = elim (encode_block (b ∷ bytes)) [ none ↦ [] | some out ↦ out ]

  abbrev pub credentials : NtripSource → Bytes
  credentials s = s.user ++ (codes ":" ++ s.pass)

  unfoldable pub get_request : NtripSource → Bytes
  get_request s =
      codes "GET /"
      ++ s.name
      ++ codes " HTTP/1.1\r\nUser-Agent: NTRIP-CppBridge\r\nAuthorization: Basic "
      ++ base64 (credentials s)
      ++ codes "\r\nConnection: keep-alive\r\n\r\n"

  unfoldable pub send_request : Connection → Connection
  send_request c =
      if not (length (credentials c.source) == 0) && length (base64 (credentials c.source)) == 0
      then reconnect c
      else let request = get_request c.source in
        ask (record c { request = request }) (write request ∷ [])

  -- The completion handler of `async_connect`.
  unfoldable pub on_connected : Connection → Ec → Connection
  on_connected c aborted = c
  on_connected c success = send_request c
  on_connected c error = reconnect c

-- The completion handler of `async_resolve`.
unfoldable pub on_resolved : Connection → Ec → Connection
on_resolved c aborted = c
on_resolved c success = ask c (open_socket ∷ [])
on_resolved c error = reconnect c
