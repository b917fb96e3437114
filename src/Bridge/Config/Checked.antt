-- ===== src/Bridge/Config/Checked.antt =====
-- What src/nats2ntrip.cpp can rely on once a configuration file has been accepted.
use rtcmbridge.Base.{
  ltb_false→le, ℕ, suc, ◌≤◌, ◌≡◌, true, false, some, List, [], ◌∷◌, ◌++◌, Bytes, Option-cases, inl,
  inr, ltb, ◌==◌, drop, bytes_eq, codes, All, All-append,
}
use rtcmbridge.Bridge.Config.{
  parsed, parse_positive_int, find_char, has_separator, trim_copy, is_nil, lines_from, parse_server,
}
use rtcmbridge.Bridge.Config.Gives.{
  Gives, gives, gives_nothing, from_gives, if-Gives, >>=-Gives, Gives-any,
}
use rtcmbridge.Bridge.Config.Nats2ntrip.{
  Configuration, Section, options, nats_sources, nats_mountpoints, ntrip_destinations,
  empty_configuration, parse_section_header, parse_nats_mountpoint_body_line, destination_port,
  destination_host, destination_pass, parse_ntrip_destination_body_line, parse_body_line,
  parse_line, parse_lines, check, parse_configuration,
}
use rtcmbridge.Bridge.Config.Positive.{
  IsPositiveInt, parse_positive_int-bounds, IsSoundOptions, default-IsSound,
  parse_options_body_line-Gives,
}

-- A name with no separator in it.
abbrev pub IsPlain : Bytes → Type 0
IsPlain name = (bytes_eq name [] ≡ false) × (has_separator name ≡ false)

-- The options are sound, the mountpoints are plain names, and the port of a destination, once
-- there is one, is a positive `int`.
pub record IsSound (c : Configuration) : Type 0 where
  pub options : IsSoundOptions c.options
  pub mountpoints : All IsPlain c.nats_mountpoints
  pub port : c.has_ntrip_destination ≡ true → IsPositiveInt c.ntrip_destination.port

parse_nats_mountpoint_body_line-Gives :
    (line : Bytes) (c : Configuration)
    → IsSound c
    → Gives IsSound (parse_nats_mountpoint_body_line line c)
unfolding parse_nats_mountpoint_body_line
parse_nats_mountpoint_body_line-Gives line c s =
    let mountpoint = trim_copy line in
    if-Gives (bytes_eq mountpoint []) (λ e. gives_nothing _)
      (λ filled.
        if-Gives (has_separator mountpoint) (λ e. gives_nothing _)
          (λ plain. gives record {
            options = s.options;
            mountpoints =
                All-append IsPlain c.nats_mountpoints (mountpoint ∷ []) s.mountpoints
                  ((filled, plain), tt);
            port = s.port;
          }))

destination_port-Gives :
    (line : Bytes) (u p h : ℕ) (c : Configuration)
    → IsSound c
    → Gives IsSound (destination_port line u p h c)
unfolding destination_port
destination_port-Gives line u p h c s = elim (Option-cases (find_char 47 line (suc h))) [
  | inr (i, e) ↦ rw (destination_port, e) (gives_nothing _)
  | inl e ↦ elim (Option-cases (parse_positive_int (drop (suc h) line))) [
    | inl f ↦ rw (destination_port, e, f) (gives_nothing _)
    | inr (port, f) ↦
        rw (destination_port, e, f)
          (gives record {
            options = s.options;
            mountpoints = s.mountpoints;
            port = λ t. parse_positive_int-bounds _ port f;
          })
  ]
]

destination_host-Gives :
    (line : Bytes) (u p : ℕ) (c : Configuration)
    → IsSound c
    → Gives IsSound (destination_host line u p c)
unfolding destination_host
destination_host-Gives line u p c s = elim (Option-cases (find_char 58 line (suc p))) [
  | inl e ↦ rw (destination_host, e) (gives_nothing _)
  | inr (h, e) ↦
      rw (destination_host, e)
        (if-Gives (h == suc p) (λ e. gives_nothing _) (λ e. destination_port-Gives line u p h c s))
]

destination_pass-Gives :
    (line : Bytes) (u : ℕ) (c : Configuration)
    → IsSound c
    → Gives IsSound (destination_pass line u c)
unfolding destination_pass
destination_pass-Gives line u c s = elim (Option-cases (find_char 32 line (suc u))) [
  | inl e ↦ rw (destination_pass, e) (gives_nothing _)
  | inr (p, e) ↦
      rw (destination_pass, e)
        (if-Gives (p == suc u) (λ e. gives_nothing _) (λ e. destination_host-Gives line u p c s))
]

parse_ntrip_destination_body_line-Gives :
    (line : Bytes) (c : Configuration)
    → IsSound c
    → Gives IsSound (parse_ntrip_destination_body_line line c)
unfolding parse_ntrip_destination_body_line
parse_ntrip_destination_body_line-Gives line c s = elim (Option-cases (find_char 58 line 0)) [
  | inl e ↦ rw (parse_ntrip_destination_body_line, e) (gives_nothing _)
  | inr (u, e) ↦
      rw (parse_ntrip_destination_body_line, e)
        (if-Gives (u == 0) (λ e. gives_nothing _) (λ e. destination_pass-Gives line u c s))
]

parse_body_line-Gives :
    (section : Section) (line : Bytes) (c : Configuration)
    → IsSound c
    → Gives IsSound (parse_body_line section line c)
unfolding parse_body_line
parse_body_line-Gives options line c s =
    >>=-Gives (λ o. parsed (record c { options = o }))
      (parse_options_body_line-Gives line c.options s.options)
      (λ o t. gives record { options = t; mountpoints = s.mountpoints; port = s.port })
parse_body_line-Gives nats_sources line c s =
    >>=-Gives (λ server. parsed (record c { nats_sources = c.nats_sources ++ (server ∷ []) }))
      (Gives-any (parse_server (codes "source") line))
      (λ server t. gives record { options = s.options; mountpoints = s.mountpoints; port = s.port })
parse_body_line-Gives nats_mountpoints line c s = parse_nats_mountpoint_body_line-Gives line c s
parse_body_line-Gives ntrip_destinations line c s = parse_ntrip_destination_body_line-Gives line c s

parse_line-Gives :
    (line : Bytes) (section : Section) (c : Configuration)
    → IsSound c
    → Gives (λ (step : Section × Configuration). IsSound step.1) (parse_line line section c)
unfolding parse_line
parse_line-Gives [] section c s = gives s
parse_line-Gives (b ∷ line) section c s =
    if-Gives (b == 35) (λ e. gives s)
      (λ e.
        if-Gives (b == 91)
          (λ e.
            >>=-Gives (λ next. parsed (next, c)) (Gives-any (parse_section_header (b ∷ line)))
              (λ next t. gives s))
          (λ e.
            >>=-Gives (λ d. parsed (section, d)) (parse_body_line-Gives section (b ∷ line) c s)
              (λ d t. gives t)))

parse_lines-Gives :
    (lines : List Bytes) (section : Section) (c : Configuration)
    → IsSound c
    → Gives IsSound (parse_lines lines section c)
unfolding parse_lines
parse_lines-Gives [] section c s = gives s
parse_lines-Gives (line ∷ rest) section c s =
    >>=-Gives (λ (step : Section × Configuration). parse_lines rest step.0 step.1)
      (parse_line-Gives (trim_copy line) section c s)
      (λ step t. parse_lines-Gives rest step.0 step.1 t)

-- Besides, the bounds of the delay are in order and there is a source, a mountpoint and a destination.
pub record IsRunnable (c : Configuration) : Type 0 where
  pub sound : IsSound c
  pub delays : c.options.reconnect_min_sec ≤ c.options.reconnect_max_sec
  pub source : is_nil c.nats_sources ≡ false
  pub mountpoint : is_nil c.nats_mountpoints ≡ false
  pub destination : c.has_ntrip_destination ≡ true

check-Gives : (c : Configuration) → IsSound c → Gives IsRunnable (check c)
unfolding check
check-Gives c s =
    if-Gives (ltb c.options.reconnect_max_sec c.options.reconnect_min_sec) (λ e. gives_nothing _)
      (λ delays.
        if-Gives (is_nil c.nats_sources) (λ e. gives_nothing _)
          (λ source.
            if-Gives (is_nil c.nats_mountpoints) (λ e. gives_nothing _)
              (λ mountpoint.
                if-Gives c.has_ntrip_destination
                  (λ destination. gives record {
                    sound = s;
                    delays = ltb_false→le _ _ delays;
                    source = source;
                    mountpoint = mountpoint;
                    destination = destination;
                  })
                  (λ e. gives_nothing _))))

empty-IsSound : IsSound empty_configuration
empty-IsSound = record { options = default-IsSound; mountpoints = tt; port = λ t. absurd cc }

-- In a configuration that nats2ntrip accepts, read_buffer_bytes, reconnect_min_sec and
-- reconnect_max_sec are positive ints and the two delays are in order; the option for the throughput is
-- a positive int of kilobytes times 1024 as 32 bits keep it, hence possibly zero or negative; there are
-- a NATS server and a mountpoint, each mountpoint's name is not empty and has no separator in it, and
-- there is a destination, whose port is a positive int.
pub parse_configuration-IsRunnable :
    (path file : Bytes) (c : Configuration)
    → parse_configuration path (some file) empty_configuration ≡ parsed c
    → IsRunnable c
unfolding parse_configuration
parse_configuration-IsRunnable path file c h =
    let read = parse_lines-Gives (lines_from [] file) options empty_configuration empty-IsSound in
    let outcome : Gives IsRunnable (parsed c) = rw⁻¹ h (>>=-Gives check read check-Gives) in
    from_gives outcome
