-- ===== src/Tests/Configuring.antt =====
-- src/nats2ntrip.cpp on a concrete file.
use rtcmbridge.Base.{
  ℕ, ◌≡◌, refl, true, Option, some, none, List, [], ◌∷◌, ◌*◌, arith, Bytes, codes, length, map,
}
use rtcmbridge.Base.Text.{find}
use rtcmbridge.Base.Int.{negsuc}
use rtcmbridge.Ntrip.Options.{default_options, NtripSource}
use rtcmbridge.Base.Text.{decimal_from}
use rtcmbridge.Bridge.Config.{
  parsed, lines_from, trim_left, trim_right, parse_server, server_after, find_char, stoi,
  unsigned_text, digits, to_int32, parse_positive_int,
}
use rtcmbridge.Bridge.Config.Nats2ntrip.{
  Configuration, parse_lines, parse_line, parse_section_header, section_named, parse_body_line,
  check, destination_host, destination_pass, destination_port, parse_nats_mountpoint_body_line,
  empty_configuration, parse_configuration, parse_ntrip_destination_body_line,
}
use rtcmbridge.Bridge.Config.Checked.{IsRunnable, parse_configuration-IsRunnable}
use rtcmbridge.Bridge.Config.Destination.{
  destination_line, parse_ntrip_destination-destination_line,
}
use rtcmbridge.Bridge.Program.{NatsStatus, Ended, returned, World}
use rtcmbridge.Bridge.Nats2ntrip
use rtcmbridge.Bridge.Nats2ntrip.Feeds.{worker_of, named, main-worker_of}
use rtcmbridge.Bridge.Ntrip2nats
use rtcmbridge.Bridge.Ntrip2nats.{Streaming}
use rtcmbridge.Bridge.Mains.{Tells, IsClean, mains-Tells, mains-IsClean}

abbrev path : Bytes
path = codes "a.conf"

abbrev file : Bytes
file =
    codes
      "[nats_sources]\nnats://n:4222\n# names\n[NATS_Mountpoints]\n M1 \n[ntrip_destinations]\nu:p h:2101"

abbrev caster : NtripSource
caster = record { user = codes "u"; pass = codes "p"; host = codes "h"; name = []; port = 2101 }

abbrev configured : Configuration
configured = record {
  options = default_options;
  nats_sources = codes "nats://n:4222" ∷ [];
  nats_mountpoints = codes "M1" ∷ [];
  ntrip_destination = caster;
  has_ntrip_destination = true;
}

file_parses : parse_configuration path (some file) empty_configuration ≡ parsed configured
unfolding parse_configuration parse_lines parse_line parse_section_header section_named
    parse_body_line check destination_host destination_pass destination_port
    parse_nats_mountpoint_body_line parse_ntrip_destination_body_line lines_from trim_left
    trim_right parse_server server_after find_char parse_positive_int stoi unsigned_text digits
    decimal_from find
file_parses = refl

parse_configuration-IsRunnable_example : IsRunnable configured
parse_configuration-IsRunnable_example =
    parse_configuration-IsRunnable path file configured file_parses

parse_ntrip_destination-destination_line_example :
    parse_ntrip_destination_body_line
      (destination_line (codes "u") (codes "p") (codes "h") 2101)
      empty_configuration
    ≡ parsed
        (record empty_configuration { ntrip_destination = caster; has_ntrip_destination = true })
parse_ntrip_destination-destination_line_example =
    parse_ntrip_destination-destination_line (codes "u") (codes "p") (codes "h") 2101
      empty_configuration (omega arith) (omega arith) (omega arith) refl refl refl (omega arith)
      (omega arith)

-- `throughput_log_every_bytes *= 1024U` at 2097152 kilobytes.
throughput_wraps : to_int32 (2_097_152 * 1024) ≡ negsuc 2_147_483_647
unfolding to_int32
throughput_wraps = refl

abbrev all_ok : World
all_ok = record {
  created = none;
  connected = none;
  options_allocated = λ i. true;
  connection_allocated = λ i. true;
}

abbrev argv : List Bytes
argv = codes "bridge" ∷ path ∷ []

abbrev read : Bytes → Option Bytes
read p = some file

-- Not every subscription is made.
abbrev subscription : ℕ → NatsStatus
subscription i = some (codes "Timeout")

abbrev io_run : List Streaming → Ended
io_run sessions = returned

main-worker_of_example :
    let o = Nats2ntrip.main all_ok read length (λ i. none) argv in
    (o.sessions
      ≡ map
          (λ mountpoint. worker_of length default_options (named caster mountpoint))
          (codes "M1" ∷ []))
    × (o.code ≡ 0)
main-worker_of_example =
    main-worker_of all_ok read length (λ i. none) (codes "bridge") path file configured
      record {
        created = refl;
        connected = refl;
        options_allocated = λ i. refl;
        connection_allocated = λ i. refl;
      }
      (λ i. refl) refl refl file_parses

mains-Tells_example :
    Tells (Ntrip2nats.main all_ok read io_run argv)
    × Tells (Nats2ntrip.main all_ok read length subscription argv)
mains-Tells_example = mains-Tells all_ok read io_run length subscription argv

mains-IsClean_example :
    IsClean (Ntrip2nats.main all_ok read io_run argv)
    × IsClean (Nats2ntrip.main all_ok read length subscription argv)
mains-IsClean_example = mains-IsClean all_ok read io_run length subscription argv
