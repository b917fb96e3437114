-- ===== src/Bridge/Config.antt =====
-- The reading of a configuration file, `namespace parser` of src/nats2ntrip.cpp and of
-- src/ntrip2nats.cpp: the functions that the two programs share. Texts are bytes in the C locale.
pub mod Nats2ntrip
pub mod Ntrip2nats
pub mod Numbers
pub mod Gives
pub mod Destination
pub mod Positive
pub mod Checked
pub mod Sources
pub mod SourceLine
use rtcmbridge.Base.{
  ℕ, zero, suc, ◌+◌, ◌-◌, ◌*◌, ◌/◌, ◌%◌, ◌^◌, Bool, true, false, ◌&&◌, ◌||◌, Option, none, some,
  List, [], ◌∷◌, ◌++◌, Bytes, codes, length, take, drop, bytes_eq, leb, ltb, ◌==◌, if◌then◌else◌,
  map,
}
use rtcmbridge.Base.Int.{ℤ, pos, negsuc}
use rtcmbridge.Base.Text.{find, to_string}
use rtcmbridge.Ntrip.Options.{Options}

-- `false` with the text in `error`, or `true` with what was read.
pub data Result (A : Type 0) : Type 0 where
  refused : Bytes → Result A
  parsed : A → Result A

infixl 10 ◌>>=◌
abbrev pub ◌>>=◌ : {A B : Type 0} → Result A → (A → Result B) → Result B
refused error >>= next = refused error
parsed a >>= next = next a

-- `std::isspace`, `std::tolower` and `std::isdigit`
abbrev pub is_space : ℕ → Bool
is_space c = (c == 32) || (leb 9 c && leb c 13)

abbrev pub to_lower : ℕ → ℕ
to_lower c = if leb 65 c && leb c 90 then c + 32 else c

abbrev pub is_digit : ℕ → Bool
is_digit c = leb 48 c && leb c 57

abbrev pub lower_copy : Bytes → Bytes
lower_copy s = map to_lower s

unfoldable pub trim_left : Bytes → Bytes
trim_left [] = []
trim_left (c ∷ s) = let rest = trim_left s in if is_space c then rest else c ∷ s

unfoldable pub trim_right : Bytes → Bytes
trim_right [] = []
trim_right (c ∷ s) = elim (trim_right s) [
  | [] ↦ if is_space c then [] else c ∷ []
  | d ∷ rest ↦ c ∷ (d ∷ rest)
]

abbrev pub trim_copy : Bytes → Bytes
trim_copy s = trim_left (trim_right s)

-- `line.find(c, from)`
unfoldable pub find_char : ℕ → Bytes → ℕ → Option ℕ
find_char c line from = elim (find (c ∷ []) (drop from line)) [
  | none ↦ none
  | some i ↦ some (from + i)
]

-- `line.substr(from, count)`
abbrev pub substr : Bytes → ℕ → ℕ → Bytes
substr line from count = take count (drop from line)

-- The digits that `std::stoi` reads: the value after those before, and what stands behind them.
unfoldable pub digits : ℕ → Bytes → ℕ × Bytes
digits n [] = (n, [])
digits n (c ∷ s) = elim (is_digit c) [ true ↦ digits (n * 10 + (c - 48)) s | false ↦ (n, c ∷ s) ]

-- `std::stoi` of an unsigned text: none without a digit, and when the value is not an `int`.
unfoldable pub unsigned_text : Bytes → Option (ℕ × Bytes)
unsigned_text [] = none
unsigned_text (c ∷ s) =
    let (n, rest) = digits 0 (c ∷ s) in
    if is_digit c && ltb n (2 ^ 31) then some (n, rest) else none

-- `std::stoi` where its value is at least 0: a negative one is none, as the caller refuses it.
unfoldable pub stoi : Bytes → Option (ℕ × Bytes)
stoi [] = none
stoi (c ∷ s) = elim (is_space c) [
  | true ↦ stoi s
  | false ↦ if c == 43 then unsigned_text s else if c == 45 then none else unsigned_text (c ∷ s)
]

abbrev not_empty : Bytes → Bool
not_empty [] = false
not_empty (c ∷ s) = true

unfoldable pub parse_positive_int : Bytes → Option ℕ
parse_positive_int value = elim (stoi value) [
  | none ↦ none
  | some (parsed_int, rest) ↦ if not_empty rest || (parsed_int == 0) then none else some parsed_int
]

-- An `unsigned int` stored to an `int`.
unfoldable pub to_int32 : ℕ → ℤ
to_int32 u =
    if ltb (u % 2 ^ 32) (2 ^ 31) then pos (u % 2 ^ 32) else negsuc (2 ^ 32 - 1 - u % 2 ^ 32)

unfoldable pub set_int : Bytes → Bytes → (ℕ → Options) → Result Options
set_int name value store = elim (parse_positive_int value) [
  | none ↦ refused (codes "Invalid option value '" ++ name ++ codes "'")
  | some n ↦ parsed (store n)
]

unfoldable pub set_option : Options → Bytes → Bytes → Result Options
set_option o key value =
    if bytes_eq key [] || bytes_eq value []
    then refused (codes "Invalid option format")
    else if bytes_eq key (codes "read_buffer_bytes")
    then set_int (codes "read_buffer_bytes") value (λ n. record o { read_buffer_bytes = n })
    else if bytes_eq key (codes "reconnect_min_sec")
    then set_int (codes "reconnect_min_sec") value (λ n. record o { reconnect_min_sec = n })
    else if bytes_eq key (codes "reconnect_max_sec")
    then set_int (codes "reconnect_max_sec") value (λ n. record o { reconnect_max_sec = n })
    else if bytes_eq key (codes "throughput_log_kb")
    then set_int (codes "throughput_log_kb") value
        (λ n. record o { throughput_log_every_bytes = to_int32 (n * 1024) })
    else refused (codes "Invalid option key '" ++ key ++ codes "'")

unfoldable pub parse_options_body_line : Bytes → Options → Result Options
parse_options_body_line line o = elim (find_char 61 line 0) [
  | none ↦ refused (codes "Invalid option format")
  | some eq ↦ set_option o (lower_copy (trim_copy (take eq line))) (trim_copy (drop (suc eq) line))
]

unfoldable pub server_after : Bytes → Bytes → Option ℕ → Result Bytes
server_after what line none =
    refused (codes "Invalid NATS " ++ what ++ codes " format: missing ':'")
server_after what line (some host_limit) = elim (parse_positive_int (drop (suc host_limit) line)) [
  | none ↦ refused (codes "Invalid NATS " ++ what ++ codes " format: invalid port")
  | some port ↦
      parsed (codes "nats://" ++ substr line 7 (host_limit - 7) ++ codes ":" ++ to_string port)
]

-- A server line, with the name that the error texts give it.
unfoldable pub parse_server : Bytes → Bytes → Result Bytes
parse_server what line =
    let prefix = codes "nats://" in
    if bytes_eq (take 7 line) prefix
    then server_after what line (find_char 58 line 7)
    else refused (codes "Invalid NATS " ++ what ++ codes " format")

-- `std::getline` until the file ends.
unfoldable pub lines_from : Bytes → Bytes → List Bytes
lines_from current [] = if bytes_eq current [] then [] else current ∷ []
lines_from current (c ∷ s) = elim (c == 10) [
  | true ↦ current ∷ lines_from [] s
  | false ↦ lines_from (current ++ (c ∷ [])) s
]

abbrev pub is_nil {ℓ} : {A : Type ℓ} → List A → Bool
is_nil [] = true
is_nil (x ∷ xs) = false

-- `find_first_of(" \t/:")` finds one.
abbrev pub has_separator : Bytes → Bool
has_separator [] = false
has_separator (c ∷ s) = (c == 32) || (c == 9) || (c == 47) || (c == 58) || has_separator s
