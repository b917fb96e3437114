-- ===== src/Bridge/Config/Destination.antt =====
-- The destination line of src/nats2ntrip.cpp: the fields that are written are the fields that are read.
use rtcmbridge.Base.{
  ℕ, suc, ◌+◌, ◌-◌, ◌^◌, ◌<◌, ◌≡◌, refl, ap, ◌∙◌, Bool, true, false, none, some, [], ◌∷◌, ◌++◌,
  arith, Bytes, length, take, drop, ◌==◌, if◌then◌else◌, take-append_length, drop_add,
}
use rtcmbridge.Base.Text.{find}
use rtcmbridge.Base.Text.{to_string}
use rtcmbridge.Bridge.Config.{parsed, find_char, substr, parse_positive_int}
use rtcmbridge.Bridge.Config.Numbers.{
  parse_positive_int-to_string, IsDigits, decimal-IsDigits, more, done,
}
use rtcmbridge.Bridge.Config.Nats2ntrip.{
  Configuration, destination_port, destination_host, destination_pass,
  parse_ntrip_destination_body_line,
}

-- The byte does not stand in the text.
abbrev pub lacks : ℕ → Bytes → Bool
lacks c [] = true
lacks c (d ∷ s) = if c == d then false else lacks c s

pub drop_past : (s : Bytes) (c : ℕ) (t : Bytes) → drop (suc (length s)) (s ++ (c ∷ t)) ≡ t
drop_past [] c t = refl
drop_past (d ∷ s) c t = drop_past s c t

find-lacks :
    (c : ℕ) (s t : Bytes) → lacks c s ≡ true → find (c ∷ []) (s ++ (c ∷ t)) ≡ some (length s)
unfolding find
find-lacks c [] t h = ground arith
find-lacks c (d ∷ s) t h = ground (arith, find-lacks c s t)

find-none-lacks : (c : ℕ) (s : Bytes) → lacks c s ≡ true → find (c ∷ []) s ≡ none
unfolding find
find-none-lacks c [] h = refl
find-none-lacks c (d ∷ s) h = ground (arith, find-none-lacks c s)

-- The text stands in `line` at `n`, followed by `c` and `t`.
pub drop_next :
    (line : Bytes) (n : ℕ) (s : Bytes) (c : ℕ) (t : Bytes)
    → drop n line ≡ s ++ (c ∷ t)
    → drop (suc (n + length s)) line ≡ t
drop_next line n s c t h =
    let split : suc (n + length s) ≡ n + suc (length s) = omega arith in
    rw (split, drop_add n (suc (length s)) line, h) (drop_past s c t)

pub find_char-at :
    (line : Bytes) (n : ℕ) (s : Bytes) (c : ℕ) (t : Bytes)
    → drop n line ≡ s ++ (c ∷ t)
    → lacks c s ≡ true
    → find_char c line n ≡ some (n + length s)
unfolding find_char
find_char-at line n s c t h k = rw (find_char, h, find-lacks c s t k) refl

pub substr-at :
    (line : Bytes) (n k : ℕ) (s t : Bytes)
    → drop n line ≡ s ++ t
    → k ≡ length s
    → substr line n k ≡ s
substr-at line n k s t h e = rw (h, e) (take-append_length s t)

pub length-positive : (s : Bytes) (n : ℕ) → 0 < length s → (n + length s == n) ≡ false
length-positive s n h = ground arith

pub digits-lack : (s : Bytes) → IsDigits s → lacks 47 s ≡ true
digits-lack [] done = refl
digits-lack (d ∷ s) (more h k ds) = ground (arith, digits-lack s ds)

pub length-nonzero : (s : Bytes) → 0 < length s → (length s == 0) ≡ false
length-nonzero s h = ground arith

find_char-none :
    (line : Bytes) (n c : ℕ) (s : Bytes)
    → drop n line ≡ s
    → lacks c s ≡ true
    → find_char c line n ≡ none
unfolding find_char
find_char-none line n c s h k = rw (find_char, h, find-none-lacks c s k) refl

user_step :
    (line : Bytes) (c : Configuration) (u : ℕ)
    → find_char 58 line 0 ≡ some u
    → (u == 0) ≡ false
    → parse_ntrip_destination_body_line line c ≡ destination_pass line u c
unfolding parse_ntrip_destination_body_line
user_step line c u e t = rw (parse_ntrip_destination_body_line, e, t) refl

pass_step :
    (line : Bytes) (c : Configuration) (u p : ℕ)
    → find_char 32 line (suc u) ≡ some p
    → (p == suc u) ≡ false
    → destination_pass line u c ≡ destination_host line u p c
unfolding destination_pass
pass_step line c u p e t = rw (destination_pass, e, t) refl

host_step :
    (line : Bytes) (c : Configuration) (u p h : ℕ)
    → find_char 58 line (suc p) ≡ some h
    → (h == suc p) ≡ false
    → destination_host line u p c ≡ destination_port line u p h c
unfolding destination_host
host_step line c u p h e t = rw (destination_host, e, t) refl

port_step :
    (line : Bytes) (c : Configuration) (u p h : ℕ) {port : ℕ} {user pass host : Bytes}
    → find_char 47 line (suc h) ≡ none
    → parse_positive_int (drop (suc h) line) ≡ some port
    → take u line ≡ user
    → substr line (suc u) (p - u - 1) ≡ pass
    → substr line (suc p) (h - p - 1) ≡ host
    → destination_port line u p h c
      ≡ parsed (record c {
        ntrip_destination = record {
          user = user;
          pass = pass;
          host = host;
          name = [];
          port = port;
        };
        has_ntrip_destination = true;
      })
unfolding destination_port
port_step line c u p h e f x y z = rw (destination_port, e, f, x, y, z) refl

-- The line of a destination.
unfoldable pub destination_line : Bytes → Bytes → Bytes → ℕ → Bytes
destination_line user pass host port =
    user ++ (58 ∷ (pass ++ (32 ∷ (host ++ (58 ∷ to_string port)))))

-- A destination line is read as the fields it was written from, when the user, the password and the host
-- are not empty, there is no colon in the user and the host and no space in the password, and the port
-- is a positive int.
pub parse_ntrip_destination-destination_line :
    (user pass host : Bytes) (port : ℕ) (c : Configuration)
    → 0 < length user
    → 0 < length pass
    → 0 < length host
    → lacks 58 user ≡ true
    → lacks 32 pass ≡ true
    → lacks 58 host ≡ true
    → 0 < port
    → port < 2 ^ 31
    → parse_ntrip_destination_body_line (destination_line user pass host port) c
      ≡ parsed (record c {
        ntrip_destination = record {
          user = user;
          pass = pass;
          host = host;
          name = [];
          port = port;
        };
        has_ntrip_destination = true;
      })
unfolding destination_line
parse_ntrip_destination-destination_line user pass host port c u p h lu lp lh pos int =
    let tail3 = to_string port in
    let tail2 = host ++ (58 ∷ tail3) in
    let tail1 = pass ++ (32 ∷ tail2) in
    let line = user ++ (58 ∷ tail1) in
    let n1 = suc (length user) in
    let n2 = suc (n1 + length pass) in
    let n3 = suc (n2 + length host) in
    let d1 : drop n1 line ≡ tail1 = drop_past user 58 tail1 in
    let d2 : drop n2 line ≡ tail2 = drop_next line n1 pass 32 tail2 d1 in
    let d3 : drop n3 line ≡ tail3 = drop_next line n2 host 58 tail3 d2 in
    let e1 : find_char 58 line 0 ≡ some (length user) =
      find_char-at line 0 user 58 tail1 refl lu ∙ ap some (omega arith) in
    let e4 : find_char 47 line n3 ≡ none =
      find_char-none line n3 47 tail3 d3 (digits-lack tail3 (decimal-IsDigits 10 port)) in
    let e5 : parse_positive_int (drop n3 line) ≡ some port =
      rw d3 (parse_positive_int-to_string port pos int) in
    user_step line c (length user) e1 (length-nonzero user u)
    ∙ pass_step line c (length user) _ (find_char-at line n1 pass 32 tail2 d1 lp)
        (length-positive pass n1 p)
    ∙ host_step line c (length user) _ _ (find_char-at line n2 host 58 tail3 d2 lh)
        (length-positive host n2 h)
    ∙ port_step line c (length user) (n1 + length pass) (n2 + length host) e4 e5
        (take-append_length user (58 ∷ tail1))
        (substr-at line n1 _ pass (32 ∷ tail2) d1 (omega arith))
        (substr-at line n2 _ host (58 ∷ tail3) d2 (omega arith))
