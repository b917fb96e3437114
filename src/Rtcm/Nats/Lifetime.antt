-- ===== src/Rtcm/Nats/Lifetime.antt =====
-- What `main` of src/rtcm_decoder_nats.cpp leaves behind, and what a good run prints.
use mathlib.Core.List.{flatten}
use rtcmbridge.Base.{
  ℕ, zero, suc, ◌≡◌, refl, sym, ap, ◌∙◌, Option, none, some, List, [], ◌∷◌, ◌++◌, Bytes, codes,
  length, arith, take_all, All,
}
use rtcmbridge.Base.Int.{pos}
use rtcmbridge.Base.Calls.{after_calls}
use rtcmbridge.Rtcm.Framer
use rtcmbridge.Rtcm.Framer.{Framer, new_framer}
use rtcmbridge.Rtcm.Framer.Split.{
  Pieces, new_framer-IsSettled, push_all, push_all-flatten, push-nil,
}
use rtcmbridge.Rtcm.Nats.{
  push, Msg, AppCtx, on_nats_msg, split_csv, Status, Call, create_options, set_servers, connect,
  subscribe, destroy_subscription, destroy_connection, destroy_options, close, Outcome, Nats,
  failed, receive, with_subscription, with_connection, with_servers, with_server_list, with_options,
  run, usage, main,
}

-- The objects of the NATS library that are alive, the youngest first.
pub data Handle : Type 0 where
  options connection subscription : Handle

-- The library in use, with what is alive in it, and after nats_Close.
pub data Library : Type 0 where
  in_use : List Handle → Library
  closed : Library

abbrev pub opened : Handle → Status → List Handle → Library
opened h none alive = in_use (h ∷ alive)
opened h (some _) alive = in_use alive

-- One call: it uses and destroys only what is alive, destroys the youngest first, closes the library
-- only with nothing alive, and does not use it after that.
abbrev pub call : Call → Library → Option Library
call (create_options s) (in_use alive) = some (opened options s alive)
call (set_servers _ _) (in_use (options ∷ alive)) = some (in_use (options ∷ alive))
call (connect s) (in_use (options ∷ alive)) = some (opened connection s (options ∷ alive))
call (subscribe _ s) (in_use (connection ∷ alive)) =
    some (opened subscription s (connection ∷ alive))
call destroy_subscription (in_use (subscription ∷ alive)) = some (in_use alive)
call destroy_connection (in_use (connection ∷ alive)) = some (in_use alive)
call destroy_options (in_use (options ∷ alive)) = some (in_use alive)
call close (in_use []) = some closed
call _ _ = none

-- The library as an exit code says that it is left: closed after a good run, else in use with nothing
-- alive.
abbrev pub left_by : ℕ → Library
left_by zero = closed
left_by (suc _) = in_use []

-- From `library` on, the calls are allowed, and leave it as the exit code says.
abbrev pub IsClean : Outcome → Library → Type 0
IsClean o library = after_calls call o.calls library ≡ some (left_by o.code)

subscription-IsClean :
    (messages : List Msg) (subject : Bytes) (s : Status)
    → IsClean
        (with_subscription messages subject s)
        (opened subscription s (connection ∷ options ∷ []))
unfolding with_subscription failed
subscription-IsClean messages subject none = refl
subscription-IsClean messages subject (some text) = refl

module _ (nats : Nats) where
  connection-IsClean :
      (subject : Bytes) (s : Status)
      → IsClean (with_connection nats subject s) (opened connection s (options ∷ []))
  unfolding with_connection failed
  connection-IsClean subject none = subscription-IsClean nats.messages subject nats.subscribed
  connection-IsClean subject (some text) = refl

  servers-IsClean :
      (subject : Bytes) (s : Status) → IsClean (with_servers nats subject s) (in_use (options ∷ []))
  unfolding with_servers failed
  servers-IsClean subject none = connection-IsClean subject nats.connected
  servers-IsClean subject (some text) = refl

  server_list-IsClean :
      (subject : Bytes) (servers : List Bytes)
      → IsClean (with_server_list nats subject servers) (in_use (options ∷ []))
  unfolding with_server_list failed
  server_list-IsClean subject [] = refl
  server_list-IsClean subject (server ∷ more) = servers-IsClean subject nats.servers_set

  options-IsClean :
      (subject servers : Bytes) (s : Status)
      → IsClean (with_options nats subject servers s) (opened options s [])
  unfolding with_options failed
  options-IsClean subject servers none = server_list-IsClean subject (split_csv servers)
  options-IsClean subject servers (some text) = refl

  run-IsClean : (mountpoint servers : Bytes) → IsClean (run nats mountpoint servers) (in_use [])
  unfolding run
  run-IsClean mountpoint servers =
      options-IsClean (codes "NTRIP." ++ mountpoint) servers nats.created

-- Whatever the arguments are and whatever the library returns, main uses only what it has created and
-- not yet destroyed, destroys the youngest first and leaves nothing alive. When it returns 0 its last
-- call is nats_Close, with nothing alive; when it returns another code it has not called nats_Close.
pub main-IsClean : (nats : Nats) (argv : List Bytes) → IsClean (main nats argv) (in_use [])
unfolding main usage failed
main-IsClean nats [] = refl
main-IsClean nats (mountpoint ∷ []) = run-IsClean nats mountpoint _
main-IsClean nats (mountpoint ∷ servers ∷ []) = run-IsClean nats mountpoint servers
main-IsClean nats (mountpoint ∷ servers ∷ more ∷ rest) = refl

-- The library's messages have the length that it says they have.
abbrev pub IsWhole : Msg → Type 0
IsWhole msg = msg.len ≡ pos (length msg.bytes)

abbrev pub texts : List Msg → List Bytes
texts [] = []
texts (msg ∷ more) = msg.bytes ∷ texts more

push-whole : (f : Framer) (bytes : Bytes) → push f bytes (pos (length bytes)) ≡ Framer.push f bytes
unfolding push
push-whole f [] = sym (push-nil f)
push-whole f (b ∷ bytes) =
    ap (Framer.push f) (take_all (length (b ∷ bytes)) (b ∷ bytes) (omega arith))

receive-push_all :
    (ctx : AppCtx) (messages : List Msg)
    → All IsWhole messages
    → (receive ctx messages).framer ≡ push_all ctx.framer (texts messages)
unfolding receive on_nats_msg push_all
receive-push_all ctx [] h = refl
receive-push_all ctx (msg ∷ more) h =
    receive-push_all (on_nats_msg ctx msg) more h.1
    ∙ ap (λ f. push_all f (texts more))
        (ap (push ctx.framer msg.bytes) h.0 ∙ push-whole ctx.framer msg.bytes)

-- Every call of the library has succeeded.
pub record AllOk (nats : Nats) : Type 0 where
  pub created : nats.created ≡ none
  pub servers_set : nats.servers_set ≡ none
  pub connected : nats.connected ≡ none
  pub subscribed : nats.subscribed ≡ none

-- When the list names a server and every call of the library succeeds, main returns 0 and its framer
-- is as if all bytes of all messages had been pushed to a new framer at once: messages may cut frames
-- anywhere.
pub main-framer :
    (nats : Nats) (mountpoint servers server : Bytes) (more : List Bytes)
    → AllOk nats
    → split_csv servers ≡ server ∷ more
    → All IsWhole nats.messages
    → Pieces (texts nats.messages)
    → let o = main nats (mountpoint ∷ servers ∷ []) in
      (o.code ≡ 0) × (o.framer ≡ Framer.push new_framer (flatten (texts nats.messages)))
unfolding main run with_options with_server_list with_servers with_connection with_subscription
main-framer nats mountpoint servers server more ok s whole pieces =
    simp (ok.created, s, ok.servers_set, ok.connected, ok.subscribed)
      (
        refl,
        receive-push_all (record { subject = codes "NTRIP." ++ mountpoint; framer = new_framer })
              nats.messages whole
            ∙ push_all-flatten new_framer (texts nats.messages) new_framer-IsSettled pieces,
      )
