-- ===== src/Bridge/Config/SourceLine.antt =====
-- The source line of src/ntrip2nats.cpp: the fields that are written are the fields that are read.
use rtcmbridge.Base.{◌^◌, ◌<◌, ◌≡◌, true, ◌∷◌, ◌++◌, Bytes, length}
use rtcmbridge.Base.Text.{to_string}
use rtcmbridge.Ntrip.Options.{NtripSource}
use rtcmbridge.Bridge.Config.Destination.{lacks}

-- The line of a source.
unfoldable pub source_line : NtripSource → Bytes
source_line s =
    s.user ++ (58 ∷ (s.pass ++ (32 ∷ (s.host ++ (58 ∷ (to_string s.port ++ (47 ∷ s.name)))))))

-- The fields can be told apart: the first three are not empty and do not hold the byte that ends them,
-- and the port is a positive `int`.
pub record IsWritable (s : NtripSource) : Type 0 where
  pub user : 0 < length s.user
  pub pass : 0 < length s.pass
  pub host : 0 < length s.host
  pub user_ends : lacks 58 s.user ≡ true
  pub pass_ends : lacks 32 s.pass ≡ true
  pub host_ends : lacks 58 s.host ≡ true
  pub port : 0 < s.port
  pub port_fits : s.port < 2 ^ 31
