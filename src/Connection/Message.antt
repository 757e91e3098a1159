-- ===== src/Connection/Message.antt =====
-- `update_connection_status` of src/connectionmanager_service.c: the status of a connected service
-- in a message.
use webos_connman_adapter.Base.{
  ℕ, suc, ◌+◌, false, List, [], ◌∷◌, ◌++◌, map, Option, none, some, String, Bytes, bytes_eq0, codes,
  decimal, leb, if◌then◌else◌,
}
use webos_connman_adapter.Platform.{Json, Fields, member, items_of}
use webos_connman_adapter.Service.Info.{ℤ, pos, negsuc, Ipv6Info, IpInfo, ProxyInfo}
use webos_connman_adapter.Service.State.{
  Service, connman_service_is_online, connman_service_type_wifi,
}
use webos_connman_adapter.Service.Details.{
  connman_service_get_ipinfo, connman_service_get_proxyinfo,
}
use webos_connman_adapter.Manager.Lookup.{counts_as_connected}
use webos_connman_adapter.Connection.State.{Remote, put_text, utf8_of}

abbrev pub a_text : String → Json
a_text s = Json.text (codes s)

abbrev pub texts_of : List Bytes → Json
texts_of vs = Json.arr (items_of (map (λ v. Json.text v) vs))

-- "dns1", "dns2" and so on, from `i` + 1 on.
unfoldable pub put_dns : ℕ → List Bytes → Fields → Fields
put_dns i [] fs = fs
put_dns i (d ∷ ds) fs =
    put_dns (suc i) ds (Fields.field (codes "dns" ++ decimal (i + 1)) (Json.text d) fs)

-- `g_strv_length` of NULL is 0.
abbrev pub strv : Option (List Bytes) → List Bytes
strv none = []
strv (some vs) = vs

abbrev pub put_wifi : Remote → Service → Fields → Fields
put_wifi r s fs =
    if connman_service_type_wifi (some s)
    then member "isWakeOnWifiEnabled" (Json.boolean false) (put_text "ssid" (utf8_of r s.name) fs)
    else fs

abbrev pub put_prefix : ℤ → Fields → Fields
put_prefix (pos n) fs = if leb n 128 then member "prefixLength" (Json.number n) fs else fs
put_prefix (negsuc n) fs = fs

abbrev pub ipv6_object : Ipv6Info → Bytes → Json
ipv6_object i a = Json.obj (
    put_text "method" i.method (
      put_text "gateway" i.gateway
        (put_prefix i.prefix_length (member "ipAddress" (Json.text a) Fields.end))))

unfoldable pub put_ipv6 : Ipv6Info → Fields → Fields
put_ipv6 i fs = elim i.address [ none ↦ fs | some a ↦ member "ipv6" (ipv6_object i a) fs ]

abbrev pub put_texts : String → Option (List Bytes) → Fields → Fields
put_texts key none fs = fs
put_texts key (some vs) fs = member key (texts_of vs) fs

abbrev pub proxy_object : ProxyInfo → Bytes → Json
proxy_object i method =
    let head = member "method" (Json.text method) Fields.end in
    Json.obj (
      if bytes_eq0 i.method (some (codes "auto"))
      then put_text "url" i.url head
      else if bytes_eq0 i.method (some (codes "manual"))
      then put_texts "excludes" i.excludes (put_texts "servers" i.servers head)
      else head)

unfoldable pub put_proxy : ProxyInfo → Fields → Fields
put_proxy i fs = elim i.method [
  | none ↦ fs
  | some method ↦ member "proxyinfo" (proxy_object i method) fs
]

-- The members from "state" to "gateway".
abbrev pub put_addresses : IpInfo → Fields → Fields
put_addresses i fs = put_text "gateway" i.ipv4.gateway (
    put_text "netmask" i.ipv4.netmask (
      put_text "ipAddress" i.ipv4.address
        (put_text "interfaceName" i.iface (member "state" (a_text "connected") fs))))

abbrev pub put_internet : Service → Fields → Fields
put_internet s fs =
    member "checkingInternet" (Json.boolean s.online_checking)
      (member "onInternet" (a_text (if connman_service_is_online s then "yes" else "no")) fs)

-- The service after the two remote calls, and the object.
unfoldable pub update_connection_status : Remote → Service → Fields → Service × Fields
unfolding connman_service_get_ipinfo connman_service_get_proxyinfo put_ipv6 put_proxy put_dns
update_connection_status r s fs =
    let located = (connman_service_get_ipinfo r.char_value (r.ip_reply s) s).1 in
    let proxied = (connman_service_get_proxyinfo (r.proxy_reply located) located).1 in
    let i = located.ipinfo in
    let addresses = put_dns 0 (strv i.dns) (put_addresses i fs) in
    let wireless = put_wifi r located (put_text "method" i.ipv4.method addresses) in
    if counts_as_connected s
    then (proxied, put_proxy proxied.proxyinfo (put_ipv6 i.ipv6 (put_internet located wireless)))
    else (s, member "state" (a_text "disconnected") fs)
