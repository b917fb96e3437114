-- ===== src/Tests/Bridging.antt =====
-- src/ntrip2nats.cpp on a concrete file.
use rtcmbridge.Base.{◌≡◌, refl, true, some, none, List, [], ◌∷◌, Bytes, map, codes}
use rtcmbridge.Base.Text.{find, decimal_from}
use rtcmbridge.Ntrip.Options.{default_options, NtripSource}
use rtcmbridge.Bridge.Config.{
  parsed, lines_from, trim_left, trim_right, parse_server, server_after, find_char, stoi,
  unsigned_text, digits, parse_positive_int,
}
use rtcmbridge.Bridge.Config.Ntrip2nats.{
  Configuration, parse_lines, parse_line, parse_section_header, section_named, parse_body_line,
  check, source_port, source_name, source_host, source_pass, parse_ntrip_sources_body_line,
  empty_configuration, parse_configuration,
}
use rtcmbridge.Bridge.Config.Sources.{IsReady, parse_configuration-IsReady}
use rtcmbridge.Bridge.Program.{Ended, threw, World, ending}
use rtcmbridge.Bridge.Ntrip2nats.{Streaming, main}
use rtcmbridge.Bridge.Ntrip2nats.Streams.{session_of, main-session_of}

abbrev path : Bytes
path = codes "a.conf"

abbrev file : Bytes
file = codes "[nats_destinations]\nnats://n:4222\n# casters\n[NTRIP_Sources]\n u:p h:2101/M \n"

abbrev mountpoint : NtripSource
mountpoint = record {
  user = codes "u";
  pass = codes "p";
  host = codes "h";
  name = codes "M";
  port = 2101;
}

abbrev configured : Configuration
configured = record {
  options = default_options;
  ntrip_sources = mountpoint ∷ [];
  nats_destinations = codes "nats://n:4222" ∷ [];
}

file_parses : parse_configuration path (some file) empty_configuration ≡ parsed configured
unfolding parse_configuration parse_lines parse_line parse_section_header section_named
    parse_body_line check source_port source_name source_host source_pass
    parse_ntrip_sources_body_line lines_from trim_left trim_right parse_server server_after
    find_char parse_positive_int stoi unsigned_text digits decimal_from find
file_parses = refl

parse_configuration-IsReady_example : IsReady configured
parse_configuration-IsReady_example = parse_configuration-IsReady path file configured file_parses

abbrev all_ok : World
all_ok = record {
  created = none;
  connected = none;
  options_allocated = λ i. true;
  connection_allocated = λ i. true;
}

-- A handler throws.
abbrev io_run : List Streaming → Ended
io_run sessions = threw (codes "bad_alloc")

main-session_of_example :
    let o = main all_ok (λ p. some file) io_run (codes "ntrip2nats" ∷ path ∷ []) in
    (o.sessions ≡ map (session_of default_options) (mountpoint ∷ [])) × (o.code ≡ 1)
unfolding ending
main-session_of_example =
    main-session_of all_ok (λ p. some file) io_run (codes "ntrip2nats") path file configured
      record {
        created = refl;
        connected = refl;
        options_allocated = λ i. refl;
        connection_allocated = λ i. refl;
      }
      refl refl file_parses
