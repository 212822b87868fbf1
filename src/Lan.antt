-- ===== src/Lan.antt =====
-- core/lancontext/lancontext.go: what a device says of the local network that it is attached to.
pub mod Location
pub mod Segments
pub mod Heartbeat
pub mod Beacon
pub mod Discovery
use quake_mesh.Base.{Bool, true, false, not, ◌&&◌, Option, none, some, [], ◌++◌, ◌==◌}
use quake_mesh.Base.Text.{Text, codes, text_eq, trim_space}

pub record Context : Type 0 where
  pub gateway_ip : Text
  pub local_ip : Text
  pub ssid : Text
  pub bssid : Text

-- `c == Context{}`.
abbrev pub is_zero : Context → Bool
is_zero c = c.gateway_ip == [] && c.local_ip == [] && c.ssid == [] && c.bssid == []

unfoldable pub valid : Context → Bool
valid c = not (is_zero c) && not (c.gateway_ip == [])

-- Of packages sha256 and hex, the hex form of the first 16 bytes of a digest; of package net, the host
-- that `SplitHostPort` gives, with `none` for an error.
pub record Library : Type 0 where
  pub digest : Text → Text
  pub split_host : Text → Option Text

abbrev pub segment_key : Context → Text
segment_key c = c.gateway_ip ++ codes "|" ++ c.ssid ++ codes "|" ++ c.bssid

unfoldable pub segment_id : Library → Context → Text
segment_id lib c = lib.digest (segment_key c)

abbrev pub host_or : Text → Option Text → Text
host_or addr none = trim_space addr
host_or addr (some host) = host

unfoldable pub local_ip_from_remote_addr : Library → Text → Text
local_ip_from_remote_addr lib addr = host_or addr (lib.split_host addr)
