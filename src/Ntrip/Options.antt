-- ===== src/Ntrip/Options.antt =====
-- The configuration records of include/ntrip/ntrip.h and `ntripOptions` of src/ntrip.cpp.
use rtcmbridge.Base.{Bool, true, false, ℕ, Bytes, [], Option, some, ◌*◌}
use rtcmbridge.Base.Int.{ℤ, pos}

-- `int` members that only positive numbers are ever stored in are numbers. The last one can hold
-- any `int`.
pub record Options : Type 0 where
  pub read_buffer_bytes : ℕ
  pub reconnect_min_sec : ℕ
  pub reconnect_max_sec : ℕ
  pub throughput_log_every_bytes : ℤ

abbrev pub default_options : Options
default_options = record {
  read_buffer_bytes = 4096;
  reconnect_min_sec = 2;
  reconnect_max_sec = 32;
  throughput_log_every_bytes = pos (100 * 1024);
}

pub record NtripSource : Type 0 where
  pub user : Bytes
  pub pass : Bytes
  pub host : Bytes
  pub name : Bytes
  pub port : ℕ

pub record NatsDestination : Type 0 where
  pub server : Bytes

-- `ntripStatus`
pub data Status : Type 0 where
  ntrip_ok ntrip_err : Status

-- `ntripOptions`; `has_io` says that `io_` is not null.
pub record NtripOptions : Type 0 where
  pub options : Options
  pub has_io : Bool
  pub source : NtripSource

abbrev no_source : NtripSource
no_source = record { user = []; pass = []; host = []; name = []; port = 0 }

-- `ntripOptions_Create` of a non-null `out`.
unfoldable pub create_options : NtripOptions
create_options = record { options = default_options; has_io = false; source = no_source }

-- A null pointer is `none`. A setter leaves the object alone when it fails.
unfoldable pub set_options : Option NtripOptions → Option Options → Status × Option NtripOptions
set_options (some o) (some options) = (ntrip_ok, some (record o { options = options }))
set_options o _ = (ntrip_err, o)

unfoldable pub set_source : Option NtripOptions → Option NtripSource → Status × Option NtripOptions
set_source (some o) (some source) = (ntrip_ok, some (record o { source = source }))
set_source o _ = (ntrip_err, o)

unfoldable pub set_io : Option NtripOptions → Bool → Status × Option NtripOptions
set_io (some o) true = (ntrip_ok, some (record o { has_io = true }))
set_io o _ = (ntrip_err, o)
