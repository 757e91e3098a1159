-- ===== src/Service/Info.antt =====
-- `ipv4info_t`, `ipv6info_t`, `ipinfo_t`, `proxyinfo_t` and `peer_t` of src/connman_service.h. A
-- string array that may be NULL is an optional list.
use webos_connman_adapter.Base.{ℕ, Bool, false, List, Option, none, Bytes}

-- `gint`; `negsuc n` is -(n + 1). The values are kept, never computed with.
pub data ℤ : Type 0 where
  pos negsuc : ℕ → ℤ

pub record Ipv4Info : Type 0 where
  pub method : Option Bytes
  pub address : Option Bytes
  pub netmask : Option Bytes
  pub gateway : Option Bytes

pub record Ipv6Info : Type 0 where
  pub method : Option Bytes
  pub address : Option Bytes
  pub prefix_length : ℤ
  pub gateway : Option Bytes

pub record IpInfo : Type 0 where
  pub iface : Option Bytes
  pub ipv4 : Ipv4Info
  pub dns : Option (List Bytes)
  pub ipv6 : Ipv6Info

pub record ProxyInfo : Type 0 where
  pub method : Option Bytes
  pub url : Option Bytes
  pub servers : Option (List Bytes)
  pub excludes : Option (List Bytes)

-- The members of `peer_t` that are read. No code writes them after the structure is zeroed.
pub record Peer : Type 0 where
  pub address : Option Bytes
  pub group_owner : Bool
  pub config_method : ℕ

abbrev pub blank_ipinfo : IpInfo
blank_ipinfo = record {
  iface = none;
  ipv4 = record { method = none; address = none; netmask = none; gateway = none };
  dns = none;
  ipv6 = record { method = none; address = none; prefix_length = ℤ.pos 0; gateway = none };
}

abbrev pub blank_proxyinfo : ProxyInfo
blank_proxyinfo = record { method = none; url = none; servers = none; excludes = none }

abbrev pub blank_peer : Peer
blank_peer = record { address = none; group_owner = false; config_method = 0 }
