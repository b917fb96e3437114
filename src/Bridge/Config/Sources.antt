-- ===== src/Bridge/Config/Sources.antt =====
-- What src/ntrip2nats.cpp can rely on once a configuration file has been accepted.
use rtcmbridge.Base.{
  ltb_false→le, ℕ, suc, ◌≤◌, ◌≡◌, false, some, List, [], ◌∷◌, ◌++◌, Bytes, Option-cases, inl, inr,
  ltb, ◌==◌, ◌-◌, codes, All, All-append,
}
use rtcmbridge.Ntrip.Options.{NtripSource}
use rtcmbridge.Bridge.Config.{
  parsed, parse_positive_int, find_char, substr, trim_copy, is_nil, lines_from, parse_server,
}
use rtcmbridge.Bridge.Config.Gives.{
  Gives, gives, gives_nothing, from_gives, if-Gives, >>=-Gives, Gives-any,
}
use rtcmbridge.Bridge.Config.Positive.{
  IsPositiveInt, IsSoundOptions, default-IsSound, parse_positive_int-bounds,
  parse_options_body_line-Gives,
}
use rtcmbridge.Bridge.Config.Ntrip2nats.{
  Configuration, Section, options, nats_destinations, ntrip_sources, empty_configuration,
  parse_section_header, source_port, source_name, source_host, source_pass,
  parse_ntrip_sources_body_line, parse_body_line, parse_line, parse_lines, check,
  parse_configuration,
}

-- The port of a source is a positive `int`.
abbrev pub HasPort : NtripSource → Type 0
HasPort s = IsPositiveInt s.port

source_port-Gives : (line : Bytes) (u p h n : ℕ) → Gives HasPort (source_port line u p h n)
unfolding source_port
source_port-Gives line u p h n =
    let text = substr line (suc h) (n - h - 1) in
    elim (Option-cases (parse_positive_int text)) [
      | inl e ↦ rw (source_port, e) (gives_nothing _)
      | inr (port, e) ↦ rw (source_port, e) (gives (parse_positive_int-bounds text port e))
    ]

source_name-Gives : (line : Bytes) (u p h : ℕ) → Gives HasPort (source_name line u p h)
unfolding source_name
source_name-Gives line u p h = elim (Option-cases (find_char 47 line (suc h))) [
  | inl e ↦ rw (source_name, e) (gives_nothing _)
  | inr (n, e) ↦
      rw (source_name, e)
        (if-Gives (n == suc h) (λ e. gives_nothing _) (λ e. source_port-Gives line u p h n))
]

source_host-Gives : (line : Bytes) (u p : ℕ) → Gives HasPort (source_host line u p)
unfolding source_host
source_host-Gives line u p = elim (Option-cases (find_char 58 line (suc p))) [
  | inl e ↦ rw (source_host, e) (gives_nothing _)
  | inr (h, e) ↦
      rw (source_host, e)
        (if-Gives (h == suc p) (λ e. gives_nothing _) (λ e. source_name-Gives line u p h))
]

source_pass-Gives : (line : Bytes) (u : ℕ) → Gives HasPort (source_pass line u)
unfolding source_pass
source_pass-Gives line u = elim (Option-cases (find_char 32 line (suc u))) [
  | inl e ↦ rw (source_pass, e) (gives_nothing _)
  | inr (p, e) ↦
      rw (source_pass, e)
        (if-Gives (p == suc u) (λ e. gives_nothing _) (λ e. source_host-Gives line u p))
]

parse_ntrip_sources_body_line-Gives :
    (line : Bytes) → Gives HasPort (parse_ntrip_sources_body_line line)
unfolding parse_ntrip_sources_body_line
parse_ntrip_sources_body_line-Gives line = elim (Option-cases (find_char 58 line 0)) [
  | inl e ↦ rw (parse_ntrip_sources_body_line, e) (gives_nothing _)
  | inr (u, e) ↦
      rw (parse_ntrip_sources_body_line, e)
        (if-Gives (u == 0) (λ e. gives_nothing _) (λ e. source_pass-Gives line u))
]

-- The options are sound and the port of each source is a positive `int`.
pub record IsSound (c : Configuration) : Type 0 where
  pub options : IsSoundOptions c.options
  pub ports : All HasPort c.ntrip_sources

parse_body_line-Gives :
    (section : Section) (line : Bytes) (c : Configuration)
    → IsSound c
    → Gives IsSound (parse_body_line section line c)
unfolding parse_body_line
parse_body_line-Gives options line c s =
    >>=-Gives (λ o. parsed (record c { options = o }))
      (parse_options_body_line-Gives line c.options s.options)
      (λ o t. gives record { options = t; ports = s.ports })
parse_body_line-Gives nats_destinations line c s =
    >>=-Gives
      (λ server. parsed (record c { nats_destinations = c.nats_destinations ++ (server ∷ []) }))
      (Gives-any (parse_server (codes "destination") line))
      (λ server t. gives record { options = s.options; ports = s.ports })
parse_body_line-Gives ntrip_sources line c s =
    >>=-Gives (λ source. parsed (record c { ntrip_sources = c.ntrip_sources ++ (source ∷ []) }))
      (parse_ntrip_sources_body_line-Gives line)
      (λ source t. gives record {
        options = s.options;
        ports = All-append HasPort c.ntrip_sources (source ∷ []) s.ports (t, tt);
      })

parse_line-Gives :
    (line : Bytes) (section : Section) (c : Configuration)
    → IsSound c
    → Gives (λ (step : Section × Configuration). IsSound step.1) (parse_line line section c)
unfolding parse_line
parse_line-Gives [] section c s = gives s
parse_line-Gives (b ∷ line) section c s =
    if-Gives (b == 35) (λ e. gives s)
      (λ e.
        if-Gives (b == 91)
          (λ e.
            >>=-Gives (λ next. parsed (next, c)) (Gives-any (parse_section_header (b ∷ line)))
              (λ next t. gives s))
          (λ e.
            >>=-Gives (λ d. parsed (section, d)) (parse_body_line-Gives section (b ∷ line) c s)
              (λ d t. gives t)))

parse_lines-Gives :
    (lines : List Bytes) (section : Section) (c : Configuration)
    → IsSound c
    → Gives IsSound (parse_lines lines section c)
unfolding parse_lines
parse_lines-Gives [] section c s = gives s
parse_lines-Gives (line ∷ rest) section c s =
    >>=-Gives (λ (step : Section × Configuration). parse_lines rest step.0 step.1)
      (parse_line-Gives (trim_copy line) section c s)
      (λ step t. parse_lines-Gives rest step.0 step.1 t)

-- Besides, the bounds of the delay are in order and there is a destination and a source.
pub record IsReady (c : Configuration) : Type 0 where
  pub sound : IsSound c
  pub delays : c.options.reconnect_min_sec ≤ c.options.reconnect_max_sec
  pub destination : is_nil c.nats_destinations ≡ false
  pub source : is_nil c.ntrip_sources ≡ false

check-Gives : (c : Configuration) → IsSound c → Gives IsReady (check c)
unfolding check
check-Gives c s =
    if-Gives (ltb c.options.reconnect_max_sec c.options.reconnect_min_sec) (λ e. gives_nothing _)
      (λ delays.
        if-Gives (is_nil c.nats_destinations) (λ e. gives_nothing _)
          (λ destination.
            if-Gives (is_nil c.ntrip_sources) (λ e. gives_nothing _)
              (λ source. gives record {
                sound = s;
                delays = ltb_false→le _ _ delays;
                destination = destination;
                source = source;
              })))

empty-IsSound : IsSound empty_configuration
empty-IsSound = record { options = default-IsSound; ports = tt }

-- In a configuration that ntrip2nats accepts, read_buffer_bytes, reconnect_min_sec and
-- reconnect_max_sec are positive ints and the two delays are in order; the option for the throughput is
-- a positive int of kilobytes times 1024 as 32 bits keep it, hence possibly zero or negative; there are
-- a NATS server and a source, and the port of each source is a positive int.
pub parse_configuration-IsReady :
    (path file : Bytes) (c : Configuration)
    → parse_configuration path (some file) empty_configuration ≡ parsed c
    → IsReady c
unfolding parse_configuration
parse_configuration-IsReady path file c h =
    let read = parse_lines-Gives (lines_from [] file) options empty_configuration empty-IsSound in
    let outcome : Gives IsReady (parsed c) = rw⁻¹ h (>>=-Gives check read check-Gives) in
    from_gives outcome
