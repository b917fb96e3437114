-- ===== src/Ntrip/Source/Opening.antt =====
-- What holds once `ntripConnection_Source` of src/ntrip.cpp has returned NTRIP_OK.
use rtcmbridge.Base.{
  ℕ, ◌+◌, ◌≡◌, refl, ap, Bool, true, false, not, ◌&&◌, Option, none, some, [], ◌++◌, Bytes, length,
  take, ◌==◌, if◌then◌else◌,
}
use rtcmbridge.Base.Text.{find}
use rtcmbridge.Ntrip.Options.{NtripSource, ntrip_ok}
use rtcmbridge.Ntrip.Connection.{blank_line, response_ok, base64, credentials}
use rtcmbridge.Ntrip.Source.{
  Upload, Written, all_of, broken_at, Response, answered, broke_after, Answers, Outcome, threw,
  went, ◌>>=◌, write_bytes, connect_source, read_source_response, source_request,
  send_source_request, open_source, status_of,
}

-- A property of the state when no call has thrown.
data Goes (P : Upload → Type 0) : Outcome → Type 0 where
  stopped : (u : Upload) → Goes P (threw u)
  going : {u : Upload} → P u → Goes P (went u)

>>=-Goes :
    {P Q : Upload → Type 0} {r : Outcome} (f : Upload → Outcome)
    → Goes P r
    → ((u : Upload) → P u → Goes Q (f u))
    → Goes Q (r >>= f)
>>=-Goes f (stopped u) k = stopped u
>>=-Goes f (going p) k = k _ p

if-Goes :
    {P : Upload → Type 0} (b : Bool) {r s : Outcome}
    → (b ≡ true → Goes P r)
    → (b ≡ false → Goes P s)
    → Goes P (if b then r else s)
if-Goes true k l = k refl
if-Goes false k l = l refl

-- Connected, with nothing sent.
record Fresh (source : NtripSource) (u : Upload) : Type 0 where
  of_source : u.source ≡ source
  empty : u.sent ≡ []

record Asked (request : Bytes) (u : Upload) : Type 0 where
  kept : u.request ≡ request
  sent : u.sent ≡ request

-- The request was sent, whole, and the caster's response was good.
pub record Opened (r : Response) (request : Bytes) (u : Upload) : Type 0 where
  pub kept : u.request ≡ request
  pub sent : u.sent ≡ request
  pub complete : u.headers_complete ≡ true
  pub buffer : Bytes
  pub headers_end : ℕ
  pub response : r ≡ answered buffer
  pub ended : find blank_line buffer ≡ some headers_end
  pub good : response_ok (take (headers_end + 4) buffer) ≡ true

connect_source-Goes : (a : Answers) (u : Upload) → Goes (Fresh u.source) (connect_source a u)
unfolding connect_source
connect_source-Goes a u =
    if-Goes (a.resolves && a.connects) (λ e. going record { of_source = refl; empty = refl })
      (λ e. stopped u)

write_bytes-Goes :
    (w : Written) (u : Upload) → u.sent ≡ [] → Goes (Asked u.request) (write_bytes w u.request u)
unfolding write_bytes
write_bytes-Goes all_of u h =
    going record { kept = refl; sent = ap (λ (q : Bytes). q ++ u.request) h }
write_bytes-Goes (broken_at k) u h = stopped _

found-Goes :
    (request buffer : Bytes) (u : Upload) (found : Option ℕ)
    → find blank_line buffer ≡ found
    → Asked request u
    → Goes (Opened (answered buffer) request) (elim found [
      | none ↦ threw (record u { headers_complete = false; response_buffer = buffer })
      | some headers_end ↦
          if response_ok (take (headers_end + 4) buffer)
          then went (record u { headers_complete = true; response_buffer = [] })
          else threw (record u { headers_complete = false; response_buffer = buffer })
    ])
found-Goes request buffer u none e p = stopped _
found-Goes request buffer u (some i) e p =
    if-Goes (response_ok (take (i + 4) buffer))
      (λ good. going record {
        kept = p.kept;
        sent = p.sent;
        complete = refl;
        buffer = buffer;
        headers_end = i;
        response = refl;
        ended = e;
        good = good;
      })
      (λ bad. stopped _)

response-Goes :
    (request : Bytes) (r : Response) (u : Upload)
    → Asked request u
    → Goes (Opened r request) (read_source_response r u)
unfolding read_source_response
response-Goes request (answered buffer) u p =
    found-Goes request buffer u (find blank_line buffer) refl p
response-Goes request (broke_after buffer) u p = stopped _

request-Asked : {p q : Bytes} {r : Outcome} → p ≡ q → Goes (Asked p) r → Goes (Asked q) r
request-Asked e g = rw e at g

finished :
    {P : Upload → Type 0} (r : Outcome) → Goes P r → (status_of r).0 ≡ ntrip_ok → P (status_of r).1
finished (threw u) (stopped _) h = absurd cc
finished (went u) (going p) h = p

module _ (encode_block : Bytes → Option Bytes) where
  send-Goes :
      (a : Answers) (u : Upload)
      → u.sent ≡ []
      → Goes (Asked (source_request encode_block u.source)) (send_source_request encode_block a u)
  unfolding send_source_request
  send-Goes a u h =
      if-Goes
        (not (length (credentials encode_block u.source) == 0)
          && length (base64 encode_block (credentials encode_block u.source)) == 0)
        (λ e. stopped u)
        (λ e.
          write_bytes-Goes a.writes (record u { request = source_request encode_block u.source }) h)

  -- When `ntripConnection_Source` returns NTRIP_OK, the caster has been sent the whole request for the
  -- configured source and nothing else, and its response had a good status line.
  pub open_source-Opened :
      (a : Answers) (u : Upload)
      → (open_source encode_block a u).0 ≡ ntrip_ok
      → Opened a.response (source_request encode_block u.source) (open_source encode_block a u).1
  unfolding open_source
  open_source-Opened a u h =
      let asked = >>=-Goes (send_source_request encode_block a) (connect_source-Goes a u) (λ v f.
        request-Asked (ap (source_request encode_block) f.of_source) (send-Goes a v f.empty)) in
      finished
        (connect_source a u
          >>= send_source_request encode_block a
          >>= read_source_response a.response)
        (>>=-Goes (read_source_response a.response) asked
          (response-Goes (source_request encode_block u.source) a.response))
        h
