-- ===== src/Ntrip/Source.antt =====
-- The sending side of `ntripConnection`, src/ntrip.cpp: `ntripConnection_Source` opens an upload, and
-- `ntripConnection_Write` sends a payload as one chunk. A blocking call of asio returns or throws.
pub mod Chunks
pub mod Opening
use rtcmbridge.Base.{
  ℕ, zero, suc, ◌+◌, ◌/◌, ◌%◌, Bool, true, false, not, ◌&&◌, Option, none, some, List, [], ◌∷◌,
  ◌++◌, Bytes, codes, length, take, drop, ltb, ◌==◌, if◌then◌else◌,
}
use rtcmbridge.Base.Text.{find, to_string}
use rtcmbridge.Ntrip.Options.{NtripSource, Status, ntrip_ok, ntrip_err}
use rtcmbridge.Ntrip.Connection.{crlf, blank_line, response_ok, base64, credentials}

-- `sent` is what the socket has taken since it was connected.
pub record Upload : Type 0 where
  pub source : NtripSource
  pub request : Bytes
  pub response_buffer : Bytes
  pub headers_complete : Bool
  pub sent : Bytes

-- What the calls of asio do: resolving and connecting succeed or throw, a write takes all its bytes or
-- throws after some, and `read_until` fills the buffer or throws.
pub data Written : Type 0 where
  all_of : Written
  broken_at : ℕ → Written

pub data Response : Type 0 where
  answered broke_after : Bytes → Response

pub record Answers : Type 0 where
  pub resolves : Bool
  pub connects : Bool
  pub writes : Written
  pub response : Response

-- A call that throws leaves the members as they are by then.
pub data Outcome : Type 0 where
  threw went : Upload → Outcome

infixl 5 ◌>>=◌
abbrev pub ◌>>=◌ : Outcome → (Upload → Outcome) → Outcome
threw u >>= next = threw u
went u >>= next = next u

-- The lower-case digits of `std::hex`, at most `fuel` of them; a `size_t` has at most sixteen.
abbrev pub hex_char : ℕ → ℕ
hex_char d = if ltb d 10 then 48 + d else 87 + d

unfoldable pub hex_from : ℕ → ℕ → Bytes
hex_from zero n = []
hex_from (suc fuel) n =
    let front = hex_from fuel (n / 16) in
    if ltb n 16 then hex_char n ∷ [] else front ++ (hex_char (n % 16) ∷ [])

unfoldable pub encode_chunk : Bytes → Bytes
encode_chunk bytes = hex_from 16 (length bytes) ++ (crlf ++ (bytes ++ crlf))

-- `boost::asio::write`
unfoldable pub write_bytes : Written → Bytes → Upload → Outcome
write_bytes all_of bytes u = went (record u { sent = u.sent ++ bytes })
write_bytes (broken_at k) bytes u = threw (record u { sent = u.sent ++ take k bytes })

unfoldable pub connect_source : Answers → Upload → Outcome
connect_source a u = if a.resolves && a.connects then went (record u { sent = [] }) else threw u

unfoldable pub read_source_response : Response → Upload → Outcome
read_source_response (broke_after buffer) u =
    threw (record u { headers_complete = false; response_buffer = buffer })
read_source_response (answered buffer) u = elim (find blank_line buffer) [
  | none ↦ threw (record u { headers_complete = false; response_buffer = buffer })
  | some headers_end ↦
      if response_ok (take (headers_end + 4) buffer)
      then went (record u { headers_complete = true; response_buffer = [] })
      else threw (record u { headers_complete = false; response_buffer = buffer })
]

-- `catch (...) { return NTRIP_ERR; }`
abbrev pub status_of : Outcome → Status × Upload
status_of (threw u) = (ntrip_err, u)
status_of (went u) = (ntrip_ok, u)

-- `write_source`, with the status that `ntripConnection_Write` returns.
unfoldable pub write_source : Written → Bytes → Upload → Status × Upload
write_source w bytes u =
    if length bytes == 0 then (ntrip_err, u) else status_of (write_bytes w (encode_chunk bytes) u)

module _ (encode_block : Bytes → Option Bytes) where
  unfoldable pub source_request : NtripSource → Bytes
  source_request s =
      codes "POST /"
      ++ s.name
      ++ codes " HTTP/1.1\r\nHost: "
      ++ s.host
      ++ codes ":"
      ++ to_string s.port
      ++ codes
          "\r\nUser-Agent: NTRIP-CppBridge\r\nNtrip-Version: Ntrip/2.0\r\nAuthorization: Basic "
      ++ base64 encode_block (credentials encode_block s)
      ++ codes "\r\nTransfer-Encoding: chunked\r\nConnection: keep-alive\r\n\r\n"

  unfoldable pub send_source_request : Answers → Upload → Outcome
  send_source_request a u =
      let encoded = base64 encode_block (credentials encode_block u.source) in
      if not (length (credentials encode_block u.source) == 0) && length encoded == 0
      then threw u
      else let request = source_request u.source in
        write_bytes a.writes request (record u { request = request })

  -- `ntripConnection_Source`
  unfoldable pub open_source : Answers → Upload → Status × Upload
  open_source a u =
      status_of (connect_source a u >>= send_source_request a >>= read_source_response a.response)
