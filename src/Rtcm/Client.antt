-- ===== src/Rtcm/Client.antt =====
-- `NtripDecoderClient` and `base64_encode` of src/rtcm_decoder_ntrip.cpp: the connection to a caster
-- that feeds the framer. A completion handler is a function of the state and of whether it failed.
pub mod Base64
pub mod Feeding
pub mod Refusal
use rtcmbridge.Base.{
  ℕ, zero, suc, ◌+◌, ◌-◌, ◌*◌, ◌/◌, ◌%◌, ◌^◌, min, Bool, true, false, not, ◌||◌, Option, none, some,
  List, [], ◌∷◌, ◌++◌, Bytes, codes, length, get_or, take, drop, ltb, ◌==◌, if◌then◌else◌,
}
use rtcmbridge.Base.Text.{find, starts_with, to_string}
use rtcmbridge.Base.Int.{ℤ, pos, negsuc}
use rtcmbridge.Ntrip.Connection.{crlf, blank_line, prefix_to}
use rtcmbridge.Rtcm.Framer.{Framer, new_framer, push}

-- The calls made of asio, and what the client logs.
pub data Ask : Type 0 where
  resolve : Bytes → Bytes → Ask
  open_socket read close_socket : Ask
  write : Bytes → Ask
  wait : ℕ → Ask

pub data Line : Type 0 where
  resolve_failed connect_failed write_failed read_failed : Line
  caster_rejected started : Bytes → Line
  reconnect_in : ℕ → Line

-- `running` is `g_running`.
pub record Client : Type 0 where
  pub host : Bytes
  pub port : ℤ
  pub mountpoint : Bytes
  pub user : Bytes
  pub pass : Bytes
  pub running : Bool
  pub request : Bytes
  pub response_header : Bytes
  pub header_done : Bool
  pub delay_s : ℕ
  pub framer : Framer
  pub asked : List Ask
  pub log : List Line

abbrev pub ask : Client → List Ask → Client
ask c calls = record c { asked = c.asked ++ calls }

abbrev pub logged : Client → Line → Client
logged c line = record c { log = c.log ++ (line ∷ []) }

abbrev pub b64 : Bytes
b64 = codes "ABCDEFGHIJKLMNOPQRSTUVWXYZabcdefghijklmnopqrstuvwxyz0123456789+/"

-- `b64[(val >> shift) & 0x3F]`; the 32 bits of `val` are a number.
unfoldable pub sextet : ℕ → ℕ → ℕ
sextet val shift = get_or b64 (val / 2 ^ shift % 64) 0

-- `while (valb >= 0)`, with `v` for valb + 6: it is below 14, so that the loop turns twice at most.
unfoldable pub emit : ℕ → ℕ → ℕ → Bytes × ℕ
emit zero val v = ([], v)
emit (suc fuel) val v =
    let (out, rest) = emit fuel val (v - 6) in
    if ltb v 6 then ([], v) else (sextet val (v - 6) ∷ out, rest)

unfoldable pub base64_loop : ℕ → ℕ → Bytes → Bytes
base64_loop val v [] = if ltb 0 v then sextet (val * 2 ^ 8 % 2 ^ 32) (v + 2) ∷ [] else []
base64_loop val v (c ∷ s) =
    let val' = (val * 2 ^ 8 + c) % 2 ^ 32 in
    let (out, v') = emit 2 val' (v + 8) in out ++ base64_loop val' v' s

-- `while (out.size() % 4) out.push_back('=');`, three times at most.
unfoldable pub pad : ℕ → Bytes → Bytes
pad zero out = out
pad (suc fuel) out =
    let padded = pad fuel (out ++ (61 ∷ [])) in if length out % 4 == 0 then out else padded

abbrev pub base64_encode : Bytes → Bytes
base64_encode s = pad 3 (base64_loop 0 0 s)

-- `std::to_string` of an `int`.
unfoldable pub int_text : ℤ → Bytes
int_text (pos n) = to_string n
int_text (negsuc k) = 45 ∷ to_string (suc k)

unfoldable pub connect : Client → Client
connect c = if c.running then ask c (resolve c.host (int_text c.port) ∷ []) else c

-- The timer's handler connects whatever its error code.
unfoldable pub reconnect : Client → Client
reconnect c =
    let closed = ask c (close_socket ∷ []) in
    let delay = min (c.delay_s * 2) 30 in
    if c.running
    then ask (record (logged closed (reconnect_in delay)) { delay_s = delay }) (wait delay ∷ [])
    else closed

unfoldable pub get_request : Client → Bytes
get_request c =
    codes "GET /"
    ++ c.mountpoint
    ++ codes " HTTP/1.1\r\nHost: "
    ++ c.host
    ++ codes ":"
    ++ int_text c.port
    ++ codes
        "\r\nUser-Agent: NTRIP-Direct-Decoder/1.0\r\nNtrip-Version: Ntrip/2.0\r\nAuthorization: Basic "
    ++ base64_encode (c.user ++ codes ":" ++ c.pass)
    ++ codes "\r\nConnection: keep-alive\r\n\r\n"

unfoldable pub send_request : Client → Client
send_request c =
    let request = get_request c in ask (record c { request = request }) (write request ∷ [])

unfoldable pub read_loop : Client → Client
read_loop c = if c.running then ask c (read ∷ []) else c

-- The handlers of the resolution, the connection, the write and the timer.
unfoldable pub on_resolved : Client → Bool → Client
on_resolved c true = reconnect (logged c resolve_failed)
on_resolved c false = ask c (open_socket ∷ [])

unfoldable pub on_connected : Client → Bool → Client
on_connected c true = reconnect (logged c connect_failed)
on_connected c false =
    send_request (record c { delay_s = 1; response_header = []; header_done = false })

unfoldable pub on_written : Client → Bool → Client
on_written c true = reconnect (logged c write_failed)
on_written c false = read_loop c

unfoldable pub on_timer : Client → Client
on_timer c = connect c

unfoldable pub is_ok_response : Bytes → Bool
is_ok_response header =
    starts_with (codes "ICY 200") header
    || starts_with (codes "HTTP/1.0 200") header
    || starts_with (codes "HTTP/1.1 200") header

unfoldable pub first_line : Bytes → Bytes
first_line header = prefix_to (find crlf header) header

-- What `on_bytes` does with the header buffer, where the blank line was found.
unfoldable pub with_header : Client → Option ℕ → Client
with_header c none = c
with_header c (some at) =
    let header = take (at + 4) c.response_header in
    let body = drop (at + 4) c.response_header in
    if not (is_ok_response header)
    then reconnect (logged c (caster_rejected (first_line header)))
    else let s = record (logged c (started (first_line header))) { header_done = true } in
      record s {
        framer = if ltb (at + 4) (length c.response_header) then push c.framer body else c.framer;
        response_header = [];
      }

unfoldable pub on_bytes : Client → Bytes → Client
on_bytes c bytes =
    if c.header_done
    then record c { framer = push c.framer bytes }
    else let buffer = c.response_header ++ bytes in
      with_header (record c { response_header = buffer }) (find blank_line buffer)

-- The handler of the read; `none` when it failed.
unfoldable pub on_read : Client → Option Bytes → Client
on_read c none = if c.running then reconnect (logged c read_failed) else c
on_read c (some bytes) = read_loop (on_bytes c bytes)
