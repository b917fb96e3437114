-- ===== src/Bridge/Callbacks.antt =====
-- The callbacks of the NATS connection in src/ntrip2nats.cpp, written alike in src/nats2ntrip.cpp. The
-- closure is the logger, `none` for a null pointer.
use rtcmbridge.Base.{◌≡◌, refl, Option, none, some, false, [], ◌∷◌, ◌++◌, Bytes, codes}
use rtcmbridge.Logger.{
  Level, info, warn, error, Logger, enqueue, notify, holds_lock, Reach, later, enqueued, notified,
}

-- The connection: `none` for a null pointer, and else what natsConnection_GetConnectedUrl finds, `none`
-- unless it returns NATS_OK.
abbrev pub Connected : Type 0
Connected = Option (Option Bytes)

unfoldable pub nats_connected_url : Connected → Bytes
nats_connected_url none = []
nats_connected_url (some none) = []
nats_connected_url (some (some url)) = url

-- `url.empty() ? … : …`
unfoldable pub with_url : Bytes → Bytes → Bytes → Bytes
with_url text joint [] = text
with_url text joint (c ∷ url) = text ++ joint ++ (c ∷ url)

-- `info`, `warn` and `error` of the logger with the context "NATS", of a logger that is not null.
unfoldable pub nats_log : Level → Bytes → Option Logger → Option Logger
nats_log level message none = none
nats_log level message (some l) =
    some (notify (enqueue l record { level = level; context = codes "NATS"; message = message }))

unfoldable pub nats_on_disconnected : Connected → Option Logger → Option Logger
nats_on_disconnected nc =
    nats_log warn (with_url (codes "Disconnected") (codes " from ") (nats_connected_url nc))

unfoldable pub nats_on_reconnected : Connected → Option Logger → Option Logger
nats_on_reconnected nc =
    nats_log info (with_url (codes "Reconnected") (codes " to ") (nats_connected_url nc))

unfoldable pub nats_on_closed : Option Logger → Option Logger
nats_on_closed = nats_log error (codes "Connection closed (no more reconnect attempts)")

-- `text` is that of the status.
unfoldable pub nats_on_async_error : Bytes → Option Logger → Option Logger
nats_on_async_error text = nats_log warn (codes "async error: " ++ text)

-- A callback.
pub data Callback : Type 0 where
  disconnected reconnected : Connected → Callback
  closed : Callback
  async_error : Bytes → Callback

unfoldable pub called : Callback → Option Logger → Option Logger
called (disconnected nc) = nats_on_disconnected nc
called (reconnected nc) = nats_on_reconnected nc
called closed = nats_on_closed
called (async_error text) = nats_on_async_error text

log-Reach :
    (level : Level) (message : Bytes) (l : Logger)
    → Reach l
    → holds_lock l.phase ≡ false
    → (m : Logger) × (nats_log level message (some l) ≡ some m) × Reach m
unfolding nats_log
log-Reach level message l r free = (_, refl, later (later r (enqueued _ free)) notified)

-- A callback keeps to the histories of the logger, so that what it logs is written in its turn.
pub called-Reach :
    (cb : Callback) (l : Logger)
    → Reach l
    → holds_lock l.phase ≡ false
    → (m : Logger) × (called cb (some l) ≡ some m) × Reach m
unfolding called nats_on_disconnected nats_on_reconnected nats_on_closed nats_on_async_error
called-Reach (disconnected nc) l r free = log-Reach _ _ l r free
called-Reach (reconnected nc) l r free = log-Reach _ _ l r free
called-Reach closed l r free = log-Reach _ _ l r free
called-Reach (async_error text) l r free = log-Reach _ _ l r free
