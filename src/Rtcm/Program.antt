-- ===== src/Rtcm/Program.antt =====
-- `main` of src/rtcm_decoder_ntrip.cpp and the constructor of its client.
pub mod Decodes
use rtcmbridge.Base.{
  ℕ, suc, ◌-◌, ◌^◌, ◌≤◌, Bool, true, false, Option, none, some, List, [], ◌∷◌, ◌++◌, Bytes, codes,
  ltb, leb, ◌==◌, if◌then◌else◌, ◌&&◌,
}
use rtcmbridge.Base.Int.{ℤ, pos, negsuc}
use rtcmbridge.Bridge.Config.{is_space, is_digit, digits}
use rtcmbridge.Rtcm.Framer.{new_framer}
use rtcmbridge.Rtcm.Client.{Client, connect}

-- The sign is applied to the value of the digits, which has to stay an `int`.
unfoldable pub with_sign : Bool → ℕ → Option ℤ
with_sign true n =
    if n == 0 then some (pos 0) else if leb n (2 ^ 31) then some (negsuc (n - 1)) else none
with_sign false n = if ltb n (2 ^ 31) then some (pos n) else none

unfoldable pub signed_text : Bool → Bytes → Option ℤ
signed_text negative [] = none
signed_text negative (c ∷ s) = if is_digit c then with_sign negative (digits 0 (c ∷ s)).0 else none

-- `std::stoi` of the port: `none` when it throws.
unfoldable pub stoi : Bytes → Option ℤ
stoi [] = none
stoi (c ∷ s) =
    let rest = stoi s in
    if is_space c
    then rest
    else if c == 43
    then signed_text false s
    else if c == 45
    then signed_text true s
    else signed_text false (c ∷ s)

unfoldable pub new_client : Bytes → ℤ → Bytes → Bytes → Bytes → Client
new_client host port mountpoint user pass = record {
  host = host;
  port = port;
  mountpoint = mountpoint;
  user = user;
  pass = pass;
  running = true;
  request = [];
  response_header = [];
  header_done = false;
  delay_s = 1;
  framer = new_framer;
  asked = [];
  log = [];
}

-- How `main` comes to its loop: it returns 1 with these lines on std::cerr, it is ended by the exception
-- of std::stoi, or the client has been started. From there on asio calls the client's handlers.
pub data Started : Type 0 where
  refused : List Bytes → Started
  terminated : Started
  started : Client → Started

unfoldable pub with_port : Bytes → Bytes → Bytes → Bytes → Option ℤ → Started
with_port host mountpoint user pass none = terminated
with_port host mountpoint user pass (some port) =
    started (connect (new_client host port mountpoint user pass))

unfoldable pub usage : List Bytes
usage =
    codes "Usage: ./rtcm_decoder_ntrip <host> <port> <mountpoint> <user> <pass>\n"
    ∷ codes "Example: ./rtcm_decoder_ntrip 192.148.213.42 2102 ABAN3M martin-gnss Martin-gnss1\n"
    ∷ []

-- `argv`, with the program's name.
unfoldable pub main : List Bytes → Started
main (name ∷ host ∷ port ∷ mountpoint ∷ user ∷ pass ∷ []) =
    with_port host mountpoint user pass (stoi port)
main _ = refused usage

-- The handler of the signal, as the client sees it.
unfoldable pub on_signal : Client → Client
on_signal c = record c { running = false }
