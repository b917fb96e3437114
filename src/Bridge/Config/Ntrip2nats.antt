-- ===== src/Bridge/Config/Ntrip2nats.antt =====
-- The configuration file of src/ntrip2nats.cpp.
use rtcmbridge.Base.{
  ℕ, suc, ◌-◌, ◌||◌, Option, none, some, List, [], ◌∷◌, ◌++◌, Bytes, codes, length, take, drop,
  bytes_eq, get_or, not, ltb, ◌==◌, if◌then◌else◌,
}
use rtcmbridge.Ntrip.Options.{Options, NtripSource, default_options}
use rtcmbridge.Bridge.Config.{
  is_nil, Result, ◌>>=◌, refused, parsed, lower_copy, trim_copy, find_char, substr,
  parse_positive_int, parse_options_body_line, parse_server, lines_from,
}

pub data Section : Type 0 where
  options nats_destinations ntrip_sources : Section

-- A NATS destination is its `server`.
pub record Configuration : Type 0 where
  pub options : Options
  pub ntrip_sources : List NtripSource
  pub nats_destinations : List Bytes

abbrev pub empty_configuration : Configuration
empty_configuration = record {
  options = default_options;
  ntrip_sources = [];
  nats_destinations = [];
}

unfoldable pub section_named : Bytes → Result Section
section_named name =
    if bytes_eq name (codes "options")
    then parsed options
    else if bytes_eq name (codes "nats_destinations")
    then parsed nats_destinations
    else if bytes_eq name (codes "ntrip_sources")
    then parsed ntrip_sources
    else refused (codes "Unknown section '" ++ name ++ codes "'")

unfoldable pub parse_section_header : Bytes → Result Section
parse_section_header line =
    let size = length line in
    if ltb size 2 || not (get_or line 0 0 == 91) || not (get_or line (size - 1) 0 == 93)
    then refused (codes "Invalid section header")
    else section_named (lower_copy (substr line 1 (size - 2)))

-- The places of the separators, and then the fields.
unfoldable pub source_port : Bytes → ℕ → ℕ → ℕ → ℕ → Result NtripSource
source_port line user_limit pass_limit host_limit port_limit =
    elim (parse_positive_int (substr line (suc host_limit) (port_limit - host_limit - 1))) [
      | none ↦ refused (codes "Invalid NTRIP source format: invalid port")
      | some port ↦ parsed record {
        user = take user_limit line;
        pass = substr line (suc user_limit) (pass_limit - user_limit - 1);
        host = substr line (suc pass_limit) (host_limit - pass_limit - 1);
        name = drop (suc port_limit) line;
        port = port;
      }
    ]

unfoldable pub source_name : Bytes → ℕ → ℕ → ℕ → Result NtripSource
source_name line user_limit pass_limit host_limit = elim (find_char 47 line (suc host_limit)) [
  | none ↦ refused (codes "Invalid NTRIP source format: missing '/'")
  | some port_limit ↦
      if port_limit == suc host_limit
      then refused (codes "Invalid NTRIP source format: missing '/'")
      else source_port line user_limit pass_limit host_limit port_limit
]

unfoldable pub source_host : Bytes → ℕ → ℕ → Result NtripSource
source_host line user_limit pass_limit = elim (find_char 58 line (suc pass_limit)) [
  | none ↦ refused (codes "Invalid NTRIP source format: missing ':'")
  | some host_limit ↦
      if host_limit == suc pass_limit
      then refused (codes "Invalid NTRIP source format: missing ':'")
      else source_name line user_limit pass_limit host_limit
]

unfoldable pub source_pass : Bytes → ℕ → Result NtripSource
source_pass line user_limit = elim (find_char 32 line (suc user_limit)) [
  | none ↦ refused (codes "Invalid NTRIP source format: missing space")
  | some pass_limit ↦
      if pass_limit == suc user_limit
      then refused (codes "Invalid NTRIP source format: missing space")
      else source_host line user_limit pass_limit
]

unfoldable pub parse_ntrip_sources_body_line : Bytes → Result NtripSource
parse_ntrip_sources_body_line line = elim (find_char 58 line 0) [
  | none ↦ refused (codes "Invalid NTRIP source format: missing ':'")
  | some user_limit ↦
      if user_limit == 0
      then refused (codes "Invalid NTRIP source format: missing ':'")
      else source_pass line user_limit
]

unfoldable pub parse_body_line : Section → Bytes → Configuration → Result Configuration
parse_body_line options line c = do
  o ← parse_options_body_line line c.options
  parsed (record c { options = o })
parse_body_line nats_destinations line c = do
  server ← parse_server (codes "destination") line
  parsed (record c { nats_destinations = c.nats_destinations ++ (server ∷ []) })
parse_body_line ntrip_sources line c = do
  source ← parse_ntrip_sources_body_line line
  parsed (record c { ntrip_sources = c.ntrip_sources ++ (source ∷ []) })

-- One line of the file, trimmed.
unfoldable pub parse_line : Bytes → Section → Configuration → Result (Section × Configuration)
parse_line [] section c = parsed (section, c)
parse_line (b ∷ line) section c =
    if b == 35
    then parsed (section, c)
    else if b == 91
    then (parse_section_header (b ∷ line) >>= λ next. parsed (next, c))
    else (parse_body_line section (b ∷ line) c >>= λ d. parsed (section, d))

unfoldable pub parse_lines : List Bytes → Section → Configuration → Result Configuration
parse_lines [] section c = parsed c
parse_lines (line ∷ rest) section c =
    parse_line (trim_copy line) section c >>= λ step. parse_lines rest step.0 step.1

-- The checks after the last line.
unfoldable pub check : Configuration → Result Configuration
check c =
    if ltb c.options.reconnect_max_sec c.options.reconnect_min_sec
    then refused (codes "Value of reconnect_min_sec cannot be greater than reconnect_max_sec")
    else if is_nil c.nats_destinations
    then refused (codes "No NATS destinations configured")
    else if is_nil c.ntrip_sources
    then refused (codes "No NTRIP sources configured")
    else parsed c

-- `file` is what the path holds, or none when it cannot be opened.
unfoldable pub parse_configuration : Bytes → Option Bytes → Configuration → Result Configuration
parse_configuration path none c = refused (codes "Cannot open configuration file " ++ path)
parse_configuration path (some file) c = do d ← parse_lines (lines_from [] file) options c; check d
