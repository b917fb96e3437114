-- ===== src/Tests/Feeding.antt =====
-- `NtripDecoderClient` of src/rtcm_decoder_ntrip.cpp on a response that arrives in three pieces.
use mathlib.Core.List.{flatten}
use rtcmbridge.Base.{◌≡◌, refl, List, [], ◌∷◌, true, false, some, arith, Bytes, codes}
use rtcmbridge.Base.Int.{pos, negsuc}
use rtcmbridge.Base.Text.{find}
use rtcmbridge.Bridge.Config.{digits}
use rtcmbridge.Rtcm.Program.{stoi, signed_text, with_sign, with_port, main, terminated, started}
use rtcmbridge.Rtcm.Program.Decodes.{established, main-decodes}
use rtcmbridge.Rtcm.Crc.{crc24q, crc_loop, crc_byte, crc_bit, crc_bits}
use rtcmbridge.Rtcm.Framer.Frames.{after_frames}
use rtcmbridge.Rtcm.Framer.{new_framer}
use rtcmbridge.Rtcm.Client.{Client, base64_encode, base64_loop, emit, pad, sextet, is_ok_response}
use rtcmbridge.Rtcm.Client.Base64.{rfc4648, base64_encode-rfc4648}
use rtcmbridge.Rtcm.Client.Feeding.{Waits, Accepts, Feeds, receive, receive-Feeds}
use rtcmbridge.Rtcm.Client.Refusal.{Holds, Refuses, receive-Holds}
use rtcmbridge.Rtcm.Framer.Split.{new_framer-IsSettled}

abbrev client : Client
client = record {
  host = codes "h";
  port = pos 2101;
  mountpoint = codes "m";
  user = codes "u";
  pass = codes "p";
  running = true;
  request = [];
  response_header = [];
  header_done = false;
  delay_s = 1;
  framer = new_framer;
  asked = [];
  log = [];
}

abbrev reads : List Bytes
reads = codes "ICY 200 OK\r\n" ∷ codes "\r\na" ∷ codes "bc" ∷ []

abbrev client-Waits : Waits client [] new_framer
unfolding find
client-Waits = record { pending = refl; held = refl; unended = refl; idle = refl }

abbrev reads-Accepts : Accepts (codes "ICY 200 OK\r\n\r\nabc") 10
unfolding find is_ok_response
reads-Accepts = record { ended = refl; good = refl }

receive-Feeds_example : Feeds new_framer (codes "abc") (receive client reads)
unfolding flatten
receive-Feeds_example =
    receive-Feeds client [] new_framer reads 10 client-Waits reads-Accepts new_framer-IsSettled tt
      (ground arith, (ground arith, (ground arith, tt)))

abbrev refused_reads : List Bytes
refused_reads = codes "HTTP/1.1 401\r" ∷ codes "\n\r\nno" ∷ codes "pe" ∷ []

abbrev refused_reads-Refuses : Refuses (codes "HTTP/1.1 401\r\n\r\nnope") 12
unfolding find is_ok_response
refused_reads-Refuses = record { ended = refl; bad = refl }

receive-Holds_example :
    Holds (receive client refused_reads) (codes "HTTP/1.1 401\r\n\r\nnope") new_framer
unfolding flatten
receive-Holds_example =
    receive-Holds client [] new_framer refused_reads 12
      record { pending = refl; held = refl; idle = refl } refused_reads-Refuses

encoded_credentials : base64_encode (codes "u:p") ≡ codes "dTpw"
unfolding base64_loop emit pad sextet
encoded_credentials = refl

padded_credentials : base64_encode (codes "us:p") ≡ codes "dXM6cA=="
unfolding base64_loop emit pad sextet
padded_credentials = refl

base64_encode-rfc4648_example : base64_encode (codes "us:p") ≡ rfc4648 (codes "us:p")
base64_encode-rfc4648_example = base64_encode-rfc4648 (codes "us:p") (omega arith)

abbrev argv : List Bytes
argv = codes "decoder" ∷ codes "h" ∷ codes " +2101x" ∷ codes "m" ∷ codes "u" ∷ codes "p" ∷ []

port_read : stoi (codes " +2101x") ≡ some (pos 2101)
unfolding stoi signed_text with_sign digits
port_read = refl

negative_port : stoi (codes "-1") ≡ some (negsuc 0)
unfolding stoi signed_text with_sign digits
negative_port = refl

no_port : main (codes "d" ∷ [] ∷ codes "x" ∷ [] ∷ [] ∷ [] ∷ []) ≡ terminated
unfolding main with_port stoi signed_text
no_port = refl

-- A caster's response and one frame behind it, in two pieces.
abbrev frame_reads : List Bytes
frame_reads = codes "ICY 200 OK\r\n\r" ∷ (10 ∷ 0xD3 ∷ 0 ∷ 1 ∷ 7 ∷ 149 ∷ 103 ∷ 154 ∷ []) ∷ []

main-decodes_example :
    (c : Client) × (main argv ≡ started c)
    × ((receive (established c) frame_reads).framer ≡ after_frames new_framer (([], 7 ∷ []) ∷ []))
main-decodes_example =
    main-decodes (codes "decoder") (codes "h") (codes " +2101x") (codes "m") (codes "u") (codes "p")
      (pos 2101) frame_reads 10 (([], 7 ∷ []) ∷ []) port_read (ground arith, (ground arith, tt))
      (unfold find is_ok_response flatten in record { ended = refl; good = refl })
      (unfold flatten crc24q crc_loop crc_byte crc_bit crc_bits in refl)
      ((tt, tt, (omega arith, tt), omega arith), tt)
