-- ===== src/Bridge/Config/Positive.antt =====
-- The numbers of the options that the parsers of the bridges accept.
use rtcmbridge.Base.{
  refl, ℕ, ◌*◌, ◌^◌, ◌<◌, ◌≡◌, ◌||◌, some, [], ◌∷◌, arith, Bytes, Option-cases, inl, inr, bytes_eq,
  codes,
}
use rtcmbridge.Base.Int.{ℤ}
use rtcmbridge.Ntrip.Options.{Options, default_options}
use rtcmbridge.Bridge.Config.{
  stoi, unsigned_text, parse_positive_int, set_int, set_option, parse_options_body_line, find_char,
  to_int32,
}
use rtcmbridge.Bridge.Config.Gives.{Gives, gives, gives_nothing, if-Gives}

-- A positive `int`.
abbrev pub IsPositiveInt : ℕ → Type 0
IsPositiveInt n = (0 < n) × (n < 2 ^ 31)

unsigned_text-bound :
    (s : Bytes) (n : ℕ) (rest : Bytes) → unsigned_text s ≡ some (n, rest) → n < 2 ^ 31
unfolding unsigned_text
unsigned_text-bound [] n rest h = absurd cc
unsigned_text-bound (c ∷ s) n rest h = ground arith

stoi-bound : (s : Bytes) (n : ℕ) (rest : Bytes) → stoi s ≡ some (n, rest) → n < 2 ^ 31
unfolding stoi
stoi-bound [] n rest h = absurd cc
stoi-bound (c ∷ s) n rest h =
    ground
      (arith, stoi-bound s n rest, unsigned_text-bound s n rest, unsigned_text-bound (c ∷ s) n rest)

pub parse_positive_int-bounds :
    (s : Bytes) (n : ℕ) → parse_positive_int s ≡ some n → IsPositiveInt n
unfolding parse_positive_int
parse_positive_int-bounds s n h = elim (Option-cases (stoi s)) [
  | inl e ↦ absurd (ground (arith, e, h))
  | inr (r, e) ↦ ground (arith, stoi-bound s r.0 r.1)
]

-- What the option for the throughput can be: a positive `int` of kilobytes in bytes, as the 32 bits of
-- an `int` keep it, which can be zero or negative.
abbrev pub IsKilobytes : ℤ → Type 0
IsKilobytes bytes = (n : ℕ) × IsPositiveInt n × (bytes ≡ to_int32 (n * 1024))

pub record IsSoundOptions (o : Options) : Type 0 where
  pub buffer : IsPositiveInt o.read_buffer_bytes
  pub min_sec : IsPositiveInt o.reconnect_min_sec
  pub max_sec : IsPositiveInt o.reconnect_max_sec
  pub throughput : IsKilobytes o.throughput_log_every_bytes

-- What the program starts from.
pub default-IsSound : IsSoundOptions default_options
unfolding to_int32
default-IsSound = record {
  buffer = (omega arith, omega arith);
  min_sec = (omega arith, omega arith);
  max_sec = (omega arith, omega arith);
  throughput = (100, (omega arith, omega arith), refl);
}

set_int-Gives :
    (name value : Bytes) (store : ℕ → Options)
    → ((n : ℕ) → IsPositiveInt n → IsSoundOptions (store n))
    → Gives IsSoundOptions (set_int name value store)
unfolding set_int
set_int-Gives name value store k = elim (Option-cases (parse_positive_int value)) [
  | inl e ↦ rw (set_int, e) (gives_nothing _)
  | inr (n, e) ↦ rw (set_int, e) (gives (k n (parse_positive_int-bounds value n e)))
]

set_option-Gives :
    (o : Options) (key value : Bytes)
    → IsSoundOptions o
    → Gives IsSoundOptions (set_option o key value)
unfolding set_option
set_option-Gives o key value s =
    if-Gives (bytes_eq key [] || bytes_eq value []) (λ e. gives_nothing _)
      (λ e.
        if-Gives (bytes_eq key (codes "read_buffer_bytes"))
          (λ e.
            set_int-Gives _ value (λ n. record o { read_buffer_bytes = n })
              (λ n p. record {
                buffer = p;
                min_sec = s.min_sec;
                max_sec = s.max_sec;
                throughput = s.throughput;
              }))
          (λ e.
            if-Gives (bytes_eq key (codes "reconnect_min_sec"))
              (λ e.
                set_int-Gives _ value (λ n. record o { reconnect_min_sec = n })
                  (λ n p. record {
                    buffer = s.buffer;
                    min_sec = p;
                    max_sec = s.max_sec;
                    throughput = s.throughput;
                  }))
              (λ e.
                if-Gives (bytes_eq key (codes "reconnect_max_sec"))
                  (λ e.
                    set_int-Gives _ value (λ n. record o { reconnect_max_sec = n })
                      (λ n p. record {
                        buffer = s.buffer;
                        min_sec = s.min_sec;
                        max_sec = p;
                        throughput = s.throughput;
                      }))
                  (λ e.
                    if-Gives (bytes_eq key (codes "throughput_log_kb"))
                      (λ e.
                        set_int-Gives _ value
                          (λ n. record o { throughput_log_every_bytes = to_int32 (n * 1024) })
                          (λ n p. record {
                            buffer = s.buffer;
                            min_sec = s.min_sec;
                            max_sec = s.max_sec;
                            throughput = (n, p, refl);
                          }))
                      (λ e. gives_nothing _)))))

pub parse_options_body_line-Gives :
    (line : Bytes) (o : Options)
    → IsSoundOptions o
    → Gives IsSoundOptions (parse_options_body_line line o)
unfolding parse_options_body_line
parse_options_body_line-Gives line o s = elim (Option-cases (find_char 61 line 0)) [
  | inl e ↦ rw (parse_options_body_line, e) (gives_nothing _)
  | inr (i, e) ↦ rw (parse_options_body_line, e) (set_option-Gives o _ _ s)
]
