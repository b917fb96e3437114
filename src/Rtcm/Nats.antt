-- ===== src/Rtcm/Nats.antt =====
-- src/rtcm_decoder_nats.cpp: the decoder of a NATS subject. Its reader, check sum, message decoder and
-- framer are those of src/rtcm_decoder_ntrip.cpp; this is what it adds: the callback of the
-- subscription, the list of servers and `main`.
pub mod Servers
pub mod Lifetime
use rtcmbridge.Base.{
  ℕ, zero, suc, ◌+◌, Option, none, some, List, [], ◌∷◌, ◌++◌, Bytes, codes, length, take, drop,
}
use rtcmbridge.Base.Int.{ℤ, pos, negsuc}
use rtcmbridge.Base.Text.{find, decimal_from}
use rtcmbridge.Rtcm.Framer
use rtcmbridge.Rtcm.Framer.{Framer, new_framer}

-- `push` with an `int` for the length: nothing is read when it is not positive.
unfoldable pub push : Framer → Bytes → ℤ → Framer
push s bytes (negsuc _) = s
push s bytes (pos zero) = s
push s bytes (pos (suc n)) = Framer.push s (take (suc n) bytes)

-- A natsMsg: natsMsg_GetData and natsMsg_GetDataLength.
pub record Msg : Type 0 where
  pub bytes : Bytes
  pub len : ℤ

-- The decoder has no state.
pub record AppCtx : Type 0 where
  pub subject : Bytes
  pub framer : Framer

unfoldable pub on_nats_msg : AppCtx → Msg → AppCtx
on_nats_msg ctx msg = record ctx { framer = push ctx.framer msg.bytes msg.len }

-- `while (start <= s.size())`, on fuel; the rest is the text from `start` on. The item ends at `comma`,
-- and an item that ends the text ends the loop.
unfoldable pub push_back : Bytes → List Bytes → List Bytes
push_back [] out = out
push_back (c ∷ item) out = out ++ ((c ∷ item) ∷ [])

unfoldable pub split_loop : ℕ → Bytes → List Bytes → List Bytes
split_loop zero rest out = out
split_loop (suc fuel) rest out = elim (find (codes ",") rest) [
  | none ↦ push_back rest out
  | some comma ↦ split_loop fuel (drop (comma + 1) rest) (push_back (take comma rest) out)
]

unfoldable pub split_csv : Bytes → List Bytes
split_csv s = split_loop (length s + 1) s []

-- A natsStatus: `none` for NATS_OK, else its text.
abbrev pub Status : Type 0
Status = Option Bytes

-- The calls of the NATS library that `main` makes, with what they return.
pub data Call : Type 0 where
  create_options : Status → Call
  set_servers : List Bytes → Status → Call
  connect : Status → Call
  subscribe : Bytes → Status → Call
  destroy_subscription destroy_connection destroy_options close : Call

pub data Line : Type 0 where
  cout cerr : Bytes → Line

-- How `main` ends.
pub record Outcome : Type 0 where
  pub code : ℕ
  pub lines : List Line
  pub calls : List Call
  pub framer : Framer

-- What the library returns, and the messages that it delivers before the signal.
pub record Nats : Type 0 where
  pub created : Status
  pub servers_set : Status
  pub connected : Status
  pub subscribed : Status
  pub messages : List Msg

abbrev after : List Call → Outcome → Outcome
after calls o = record o { calls = calls ++ o.calls }

unfoldable pub failed : List Line → List Call → Outcome
failed lines calls = record { code = 1; lines = lines; calls = calls; framer = new_framer }

unfoldable pub receive : AppCtx → List Msg → AppCtx
receive ctx [] = ctx
receive ctx (msg ∷ more) = receive (on_nats_msg ctx msg) more

abbrev uint64_text : ℕ → Bytes
uint64_text n = decimal_from 20 n

-- Each step of `main`, by the status that the call returns.
unfoldable pub with_subscription : List Msg → Bytes → Status → Outcome
with_subscription messages subject (some text) =
    failed (cerr (codes "Subscribe failed on " ++ subject ++ codes ": " ++ text ++ codes "\n") ∷ [])
      (destroy_connection ∷ destroy_options ∷ [])
with_subscription messages subject none =
    let ctx = receive (record { subject = subject; framer = new_framer }) messages in
    record {
      code = 0;
      lines =
          cout (codes "Subscribed to " ++ subject ++ codes "\n")
          ∷ cout (codes "Press Ctrl+C to stop.\n")
          ∷ cout (
              codes "Stopping... frames_ok="
              ++ uint64_text ctx.framer.frames_ok
              ++ codes " bad_crc="
              ++ uint64_text ctx.framer.frames_bad_crc
              ++ codes "\n")
          ∷ [];
      calls = destroy_subscription ∷ destroy_connection ∷ destroy_options ∷ close ∷ [];
      framer = ctx.framer;
    }

module _ (nats : Nats) where
  unfoldable pub with_connection : Bytes → Status → Outcome
  with_connection subject (some text) =
      failed (cerr (codes "NATS connect failed: " ++ text ++ codes "\n") ∷ [])
        (destroy_options ∷ [])
  with_connection subject none =
      after (subscribe subject nats.subscribed ∷ [])
        (with_subscription nats.messages subject nats.subscribed)

  unfoldable pub with_servers : Bytes → Status → Outcome
  with_servers subject (some text) =
      failed (cerr (codes "natsOptions_SetSources failed: " ++ text ++ codes "\n") ∷ [])
        (destroy_options ∷ [])
  with_servers subject none =
      after (connect nats.connected ∷ []) (with_connection subject nats.connected)

  unfoldable pub with_server_list : Bytes → List Bytes → Outcome
  with_server_list subject [] =
      failed (cerr (codes "No valid NATS servers provided.\n") ∷ []) (destroy_options ∷ [])
  with_server_list subject (server ∷ more) =
      after (set_servers (server ∷ more) nats.servers_set ∷ [])
        (with_servers subject nats.servers_set)

  unfoldable pub with_options : Bytes → Bytes → Status → Outcome
  with_options subject servers (some text) =
      failed (cerr (codes "natsOptions_Create failed: " ++ text ++ codes "\n") ∷ []) []
  with_options subject servers none = with_server_list subject (split_csv servers)

  unfoldable pub run : Bytes → Bytes → Outcome
  run mountpoint servers =
      after (create_options nats.created ∷ [])
        (with_options (codes "NTRIP." ++ mountpoint) servers nats.created)

  unfoldable pub usage : Outcome
  usage =
      failed
        (cerr (codes "Usage: ./rtcm_decoder_nats <mountpoint> [nats_servers_csv]\n")
          ∷ cerr (
              codes
                "Example: ./rtcm_decoder_nats ABAN3M nats://127.0.0.1:4222,nats://127.0.0.1:4223\n")
          ∷ [])
        []

  -- The arguments behind the program's name.
  unfoldable pub main : List Bytes → Outcome
  main (mountpoint ∷ []) = run mountpoint (codes "nats://127.0.0.1:4222,nats://127.0.0.1:4223")
  main (mountpoint ∷ servers ∷ []) = run mountpoint servers
  main _ = usage
