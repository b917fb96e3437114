-- ===== src/Tests/Sending.antt =====
-- The sending side of `ntripConnection`, src/ntrip.cpp, on concrete payloads.
use rtcmbridge.Base.{◌≡◌, refl, true, false, some, Option, List, [], ◌∷◌, arith, Bytes, codes}
use rtcmbridge.Base.Text.{find}
use rtcmbridge.Ntrip.Options.{NtripSource}
use rtcmbridge.Ntrip.Connection.{crlf, response_ok, base64}
use rtcmbridge.Ntrip.Source.{
  Upload, Answers, all_of, answered, encode_chunk, hex_from, source_request, open_source,
  connect_source, send_source_request, write_bytes, read_source_response,
}
use rtcmbridge.Ntrip.Source.Chunks.{body, read_chunks, write_all, write_all-read_chunks}
use rtcmbridge.Ntrip.Source.Opening.{Opened, open_source-Opened}

abbrev caster : NtripSource
caster = record {
  user = codes "u";
  pass = codes "p";
  host = codes "h";
  name = codes "m";
  port = 2101;
}

abbrev idle : Upload
idle = record {
  source = caster;
  request = [];
  response_buffer = [];
  headers_complete = false;
  sent = [];
}

chunk_of_17 : encode_chunk (codes "abcdefghijklmnopq") ≡ codes "11\r\nabcdefghijklmnopq\r\n"
unfolding encode_chunk hex_from crlf
chunk_of_17 = refl

abbrev payloads : List Bytes
payloads = (1 ∷ 2 ∷ []) ∷ (3 ∷ []) ∷ []

write_all-read_chunks_example :
    ((write_all idle payloads).sent ≡ body payloads)
    × (read_chunks 3 (body payloads) ≡ some payloads)
write_all-read_chunks_example =
    write_all-read_chunks idle payloads
      ((omega arith, omega arith), ((omega arith, omega arith), tt))

-- One byte for every text.
abbrev one_byte : Bytes → Option Bytes
one_byte bytes = some (65 ∷ [])

abbrev answers : Answers
answers = record {
  resolves = true;
  connects = true;
  writes = all_of;
  response = answered (codes "HTTP/1.1 200 OK\r\n\r\n");
}

open_source-Opened_example :
    Opened
      (answered (codes "HTTP/1.1 200 OK\r\n\r\n"))
      (source_request one_byte caster)
      (open_source one_byte answers idle).1
open_source-Opened_example = open_source-Opened one_byte answers idle (
    unfold open_source connect_source send_source_request base64 write_bytes read_source_response
      find response_ok crlf in
    refl)
