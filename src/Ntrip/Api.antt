-- ===== src/Ntrip/Api.antt =====
-- The functions of include/ntrip/ntrip.h on a connection, src/ntrip.cpp. A null pointer is `none`.
use rtcmbridge.Base.{Bool, true, false, Option, none, some, Bytes, codes}
use rtcmbridge.Base.Int.{ℤ, pos}
use rtcmbridge.Ntrip.Options.{Status, ntrip_ok, ntrip_err, NtripOptions, create_options}
use rtcmbridge.Ntrip.Connection.{Connection, new_connection, connect}

-- `ntripOptions_Create` of a non-null `out`; `allocated` says that there is memory for it.
unfoldable pub allocate_options : Bool → Status × Option NtripOptions
allocate_options true = (ntrip_ok, some create_options)
allocate_options false = (ntrip_err, none)

-- `ntripConnection_Create` of a non-null `out`; `allocated` says that the constructor returns. On a
-- failure `out` is left null, as the callers have set it.
unfoldable pub create_from : NtripOptions → Bool → Bool → Status × Option Connection
create_from o true true = (ntrip_ok, some (new_connection o.options o.source))
create_from o _ _ = (ntrip_err, none)

unfoldable pub create_connection : Option NtripOptions → Bool → Status × Option Connection
create_connection none allocated = (ntrip_err, none)
create_connection (some o) allocated = create_from o o.has_io allocated

-- `ntripOptions_SetHandler` with a handler.
unfoldable pub set_handler : Option Connection → Status × Option Connection
set_handler none = (ntrip_err, none)
set_handler (some c) = (ntrip_ok, some (record c { has_handler = true }))

-- `ntripConnection_Consume`: `start` connects.
unfoldable pub consume_connection : Option Connection → Status × Option Connection
consume_connection none = (ntrip_err, none)
consume_connection (some c) = (ntrip_ok, some (connect c))

unfoldable pub status_text : Status → Bytes
status_text ntrip_ok = codes "NTRIP_OK"
status_text ntrip_err = codes "NTRIP_ERR"

unfoldable pub source_text : Connection → Bytes
source_text c = c.source.name

unfoldable pub throughput_log_every_bytes : Option Connection → ℤ
throughput_log_every_bytes none = pos 0
throughput_log_every_bytes (some c) = c.options.throughput_log_every_bytes
