-- ===== src/Service/Details.antt =====
-- `connman_service_get_ipinfo` and `connman_service_get_proxyinfo` of src/connman_service.c: the
-- addresses and the proxy settings that connman reports for a service.
use webos_connman_adapter.Base.{ℕ, Bool, true, false, List, [], ◌∷◌, Option, none, some, Bytes}
use webos_connman_adapter.Service.Info.{ℤ, Ipv4Info, Ipv6Info, ProxyInfo}
use webos_connman_adapter.Service.State.{Service}

-- A member of the dictionaries "IPv4" and "IPv6" at the types that connman gives them;
-- `prefix_length` is a byte.
pub data IpMember : Type 0 where
  method address netmask gateway : Bytes → IpMember
  prefix_length : ℕ → IpMember
  other : IpMember

-- A member of the dictionary "Proxy".
pub data ProxyMember : Type 0 where
  method url : Bytes → ProxyMember
  servers excludes : List Bytes → ProxyMember
  other : ProxyMember

-- The properties that the two functions read. `ethernet` has the interface name of each member
-- that is "Interface".
pub data Detail : Type 0 where
  ethernet : List (Option Bytes) → Detail
  ipv6 ipv4 : List IpMember → Detail
  nameservers host_routes : List Bytes → Detail
  proxy : List ProxyMember → Detail
  other : Detail

-- The loop over "Ethernet".
unfoldable pub set_iface : List (Option Bytes) → Option Bytes → Option Bytes
set_iface [] iface = iface
set_iface (none ∷ ms) iface = set_iface ms iface
set_iface (some name ∷ ms) iface = set_iface ms (some name)

unfoldable pub set_ipv4_member : IpMember → Ipv4Info → Ipv4Info
set_ipv4_member (IpMember.method v) i = record i { method = some v }
set_ipv4_member (IpMember.netmask v) i = record i { netmask = some v }
set_ipv4_member (IpMember.address v) i = record i { address = some v }
set_ipv4_member (IpMember.gateway v) i = record i { gateway = some v }
set_ipv4_member _ i = i

unfoldable pub set_ipv4 : List IpMember → Ipv4Info → Ipv4Info
unfolding set_ipv4_member
set_ipv4 [] i = i
set_ipv4 (m ∷ ms) i = set_ipv4 ms (set_ipv4_member m i)

unfoldable pub set_proxy_member : ProxyMember → ProxyInfo → ProxyInfo
set_proxy_member (ProxyMember.method v) i = record i { method = some v }
set_proxy_member (ProxyMember.url v) i = record i { url = some v }
set_proxy_member (ProxyMember.servers v) i = record i { servers = some v }
set_proxy_member (ProxyMember.excludes v) i = record i { excludes = some v }
set_proxy_member ProxyMember.other i = i

unfoldable pub set_proxy : List ProxyMember → ProxyInfo → ProxyInfo
unfolding set_proxy_member
set_proxy [] i = i
set_proxy (m ∷ ms) i = set_proxy ms (set_proxy_member m i)

-- The value of a `char` as an `int`: whether a byte from 128 up is negative is the compiler's choice.
module _ (char_value : ℕ → ℤ) where
  unfoldable pub set_ipv6_member : IpMember → Ipv6Info → Ipv6Info
  set_ipv6_member (IpMember.method v) i = record i { method = some v }
  set_ipv6_member (IpMember.prefix_length v) i = record i { prefix_length = char_value v }
  set_ipv6_member (IpMember.address v) i = record i { address = some v }
  set_ipv6_member (IpMember.gateway v) i = record i { gateway = some v }
  set_ipv6_member _ i = i

  unfoldable pub set_ipv6 : List IpMember → Ipv6Info → Ipv6Info
  unfolding set_ipv6_member
  set_ipv6 [] i = i
  set_ipv6 (m ∷ ms) i = set_ipv6 ms (set_ipv6_member m i)

  -- One round of the loop of `connman_service_get_ipinfo`.
  unfoldable pub set_ip_detail : Detail → Service → Service
  unfolding set_iface set_ipv4 set_ipv6
  set_ip_detail (Detail.ethernet ms) s = record s {
    ipinfo = record s.ipinfo { iface = set_iface ms s.ipinfo.iface };
  }
  set_ip_detail (Detail.ipv6 ms) s = record s {
    ipinfo = record s.ipinfo { ipv6 = set_ipv6 ms s.ipinfo.ipv6 };
  }
  set_ip_detail (Detail.ipv4 ms) s = record s {
    ipinfo = record s.ipinfo { ipv4 = set_ipv4 ms s.ipinfo.ipv4 };
  }
  set_ip_detail (Detail.nameservers v) s = record s { ipinfo = record s.ipinfo { dns = some v } }
  set_ip_detail (Detail.host_routes v) s = record s { hostroutes = some v }
  set_ip_detail _ s = s

  unfoldable pub set_ip_details : List Detail → Service → Service
  unfolding set_ip_detail
  set_ip_details [] s = s
  set_ip_details (d ∷ ds) s = set_ip_details ds (set_ip_detail d s)

  -- `reply` is the answer of the remote call, NULL if it fails.
  unfoldable pub connman_service_get_ipinfo : Option (List Detail) → Service → Bool × Service
  unfolding set_ip_details
  connman_service_get_ipinfo none s = (false, s)
  connman_service_get_ipinfo (some ds) s = (true, set_ip_details ds s)

unfoldable pub set_proxy_details : List Detail → Service → Service
unfolding set_proxy
set_proxy_details [] s = s
set_proxy_details (Detail.proxy ms ∷ ds) s =
    set_proxy_details ds (record s { proxyinfo = set_proxy ms s.proxyinfo })
set_proxy_details (_ ∷ ds) s = set_proxy_details ds s

unfoldable pub connman_service_get_proxyinfo : Option (List Detail) → Service → Bool × Service
unfolding set_proxy_details
connman_service_get_proxyinfo none s = (false, s)
connman_service_get_proxyinfo (some ds) s = (true, set_proxy_details ds s)
