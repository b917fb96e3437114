-- ===== src/Bridge/Config/Nats2ntrip.antt =====
-- The configuration file of src/nats2ntrip.cpp.
use rtcmbridge.Base.{
  ℕ, suc, ◌-◌, Bool, true, false, ◌||◌, Option, none, some, List, [], ◌∷◌, ◌++◌, Bytes, codes,
  length, take, drop, bytes_eq, get_or, not, ltb, ◌==◌, if◌then◌else◌,
}
use rtcmbridge.Ntrip.Options.{Options, NtripSource, default_options}
use rtcmbridge.Bridge.Config.{
  is_nil, has_separator, Result, ◌>>=◌, refused, parsed, lower_copy, trim_copy, find_char, substr,
  parse_positive_int, parse_options_body_line, parse_server, lines_from,
}

pub data Section : Type 0 where
  options nats_sources nats_mountpoints ntrip_destinations : Section

-- A NATS source is its `server`.
pub record Configuration : Type 0 where
  pub options : Options
  pub nats_sources : List Bytes
  pub nats_mountpoints : List Bytes
  pub ntrip_destination : NtripSource
  pub has_ntrip_destination : Bool

abbrev pub empty_configuration : Configuration
empty_configuration = record {
  options = default_options;
  nats_sources = [];
  nats_mountpoints = [];
  ntrip_destination = record { user = []; pass = []; host = []; name = []; port = 0 };
  has_ntrip_destination = false;
}

unfoldable pub section_named : Bytes → Result Section
section_named name =
    if bytes_eq name (codes "options")
    then parsed options
    else if bytes_eq name (codes "nats_sources")
    then parsed nats_sources
    else if bytes_eq name (codes "nats_mountpoints") || bytes_eq name (codes "ntrip_sources")
    then parsed nats_mountpoints
    else if bytes_eq name (codes "ntrip_destinations")
    then parsed ntrip_destinations
    else refused (codes "Unknown section '" ++ name ++ codes "'")

unfoldable pub parse_section_header : Bytes → Result Section
parse_section_header line =
    let size = length line in
    if ltb size 2 || not (get_or line 0 0 == 91) || not (get_or line (size - 1) 0 == 93)
    then refused (codes "Invalid section header")
    else section_named (lower_copy (substr line 1 (size - 2)))

unfoldable pub parse_nats_mountpoint_body_line : Bytes → Configuration → Result Configuration
parse_nats_mountpoint_body_line line c =
    let mountpoint = trim_copy line in
    if bytes_eq mountpoint []
    then refused (codes "Invalid NTRIP source format: empty mountpoint")
    else if has_separator mountpoint
    then refused (codes "Invalid NTRIP source format: mountpoint must be a plain name")
    else parsed (record c { nats_mountpoints = c.nats_mountpoints ++ (mountpoint ∷ []) })

-- The places of the separators, and then the fields.
unfoldable pub destination_port : Bytes → ℕ → ℕ → ℕ → Configuration → Result Configuration
destination_port line user_limit pass_limit host_limit c =
    elim (find_char 47 line (suc host_limit)) [
      | some slash ↦
          refused
            (codes "Invalid NTRIP destination format: destination must not include a mountpoint")
      | none ↦ elim (parse_positive_int (drop (suc host_limit) line)) [
        | none ↦ refused (codes "Invalid NTRIP destination format: invalid port")
        | some port ↦ parsed (record c {
          ntrip_destination = record {
            user = take user_limit line;
            pass = substr line (suc user_limit) (pass_limit - user_limit - 1);
            host = substr line (suc pass_limit) (host_limit - pass_limit - 1);
            name = [];
            port = port;
          };
          has_ntrip_destination = true;
        })
      ]
    ]

unfoldable pub destination_host : Bytes → ℕ → ℕ → Configuration → Result Configuration
destination_host line user_limit pass_limit c = elim (find_char 58 line (suc pass_limit)) [
  | none ↦ refused (codes "Invalid NTRIP destination format: missing ':'")
  | some host_limit ↦
      if host_limit == suc pass_limit
      then refused (codes "Invalid NTRIP destination format: missing ':'")
      else destination_port line user_limit pass_limit host_limit c
]

unfoldable pub destination_pass : Bytes → ℕ → Configuration → Result Configuration
destination_pass line user_limit c = elim (find_char 32 line (suc user_limit)) [
  | none ↦ refused (codes "Invalid NTRIP destination format: missing space")
  | some pass_limit ↦
      if pass_limit == suc user_limit
      then refused (codes "Invalid NTRIP destination format: missing space")
      else destination_host line user_limit pass_limit c
]

unfoldable pub parse_ntrip_destination_body_line : Bytes → Configuration → Result Configuration
parse_ntrip_destination_body_line line c = elim (find_char 58 line 0) [
  | none ↦ refused (codes "Invalid NTRIP destination format: missing ':'")
  | some user_limit ↦
      if user_limit == 0
      then refused (codes "Invalid NTRIP destination format: missing ':'")
      else destination_pass line user_limit c
]

unfoldable pub parse_body_line : Section → Bytes → Configuration → Result Configuration
parse_body_line options line c = do
  o ← parse_options_body_line line c.options
  parsed (record c { options = o })
parse_body_line nats_sources line c = do
  server ← parse_server (codes "source") line
  parsed (record c { nats_sources = c.nats_sources ++ (server ∷ []) })
parse_body_line nats_mountpoints line c = parse_nats_mountpoint_body_line line c
parse_body_line ntrip_destinations line c = parse_ntrip_destination_body_line line c

-- One line of the file, trimmed.
unfoldable pub parse_line : Bytes → Section → Configuration → Result (Section × Configuration)
parse_line [] section c = parsed (section, c)
parse_line (b ∷ line) section c =
    if b == 35
    then parsed (section, c)
    else if b == 91
    then (parse_section_header (b ∷ line) >>= λ next. parsed (next, c))
    else (parse_body_line section (b ∷ line) c >>= λ d. parsed (section, d))

unfoldable pub parse_lines : List Bytes → Section → Configuration → Result Configuration
parse_lines [] section c = parsed c
parse_lines (line ∷ rest) section c =
    parse_line (trim_copy line) section c >>= λ step. parse_lines rest step.0 step.1

-- The checks after the last line.
unfoldable pub check : Configuration → Result Configuration
check c =
    if ltb c.options.reconnect_max_sec c.options.reconnect_min_sec
    then refused (codes "Value of reconnect_min_sec cannot be greater than reconnect_max_sec")
    else if is_nil c.nats_sources
    then refused (codes "No NATS sources configured")
    else if is_nil c.nats_mountpoints
    then refused (codes "No NATS mountpoints configured")
    else if c.has_ntrip_destination
    then parsed c
    else refused (codes "No NTRIP destination configured")

-- `file` is what the path holds, or none when it cannot be opened.
unfoldable pub parse_configuration : Bytes → Option Bytes → Configuration → Result Configuration
parse_configuration path none c = refused (codes "Cannot open configuration file " ++ path)
parse_configuration path (some file) c = do d ← parse_lines (lines_from [] file) options c; check d
