-- ===== src/Connection/Typed.antt =====
-- The types of the members that src/connectionmanager_service.c puts into the reply to getstatus,
-- under the names that the code gives them. First the objects of the wired, wifi and bluetooth
-- status.
use webos_connman_adapter.Base.{
  ℕ, suc, ◌+◌, ◌≡◌, refl, ◌⊎◌, inl, inr, Bool, true, false, List, [], ◌∷◌, ◌++◌, Option, none, some,
  String, Bytes, bytes_eq, codes, decimal, if◌then◌else◌, Bool-cases, Option-cases, arith,
}
use webos_connman_adapter.Platform.{Json, Fields, Items, member, find_field}
use webos_connman_adapter.Service.Info.{Ipv6Info, IpInfo, ProxyInfo}
use webos_connman_adapter.Service.State.{
  Service, connman_service_is_online, connman_service_type_wifi,
}
use webos_connman_adapter.Service.Details.{
  connman_service_get_ipinfo, connman_service_get_proxyinfo,
}
use webos_connman_adapter.Manager.Lookup.{counts_as_connected}
use webos_connman_adapter.Connection.State.{Remote, put_text, utf8_of}
use webos_connman_adapter.Connection.Message.{
  a_text, put_dns, put_wifi, put_ipv6, put_proxy, ipv6_object, proxy_object, put_addresses,
  put_internet, strv, texts_of, update_connection_status,
}

-- The members of an object pass a test.
abbrev all_members : (Bytes → Json → Bool) → Fields → Bool
all_members test Fields.end = true
all_members test (Fields.field k v fs) =
    let rest = all_members test fs in if test k v then rest else false

abbrev is_string : Json → Bool
is_string (Json.text s) = true
is_string _ = false

abbrev is_integer : Json → Bool
is_integer (Json.number n) = true
is_integer _ = false

abbrev are_strings : Items → Bool
are_strings Items.nil = true
are_strings (Items.cons j js) = let rest = are_strings js in if is_string j then rest else false

abbrev is_strings : Json → Bool
is_strings (Json.arr js) = are_strings js
is_strings _ = false

-- A member of "ipv6", and one of "proxyinfo".
abbrev ipv6_member : Bytes → Json → Bool
ipv6_member k v = if bytes_eq k (codes "prefixLength") then is_integer v else is_string v

abbrev proxy_member : Bytes → Json → Bool
proxy_member k v =
    if bytes_eq k (codes "servers")
    then is_strings v
    else if bytes_eq k (codes "excludes")
    then is_strings v
    else is_string v

pub data Kind : Type 0 where
  is_text is_boolean is_array is_object is_ipv6 is_proxyinfo : Kind

abbrev pub has_kind : Kind → Json → Bool
has_kind is_text (Json.text s) = true
has_kind is_boolean (Json.boolean b) = true
has_kind is_array (Json.arr js) = true
has_kind is_object (Json.obj fs) = true
has_kind is_ipv6 (Json.obj fs) = all_members ipv6_member fs
has_kind is_proxyinfo (Json.obj fs) = all_members proxy_member fs
has_kind _ _ = false

ipv6_object-kind : (i : Ipv6Info) (a : Bytes) → has_kind is_ipv6 (ipv6_object i a) ≡ true
ipv6_object-kind i a = ground arith

texts_of-strings : (vs : List Bytes) → is_strings (texts_of vs) ≡ true
texts_of-strings [] = refl
texts_of-strings (v ∷ vs) = texts_of-strings vs

proxy_object-kind : (i : ProxyInfo) (a : Bytes) → has_kind is_proxyinfo (proxy_object i a) ≡ true
proxy_object-kind i a = elim (Option-cases i.servers) [
  | inl e ↦ elim (Option-cases i.excludes) [
    | inl f ↦ ground (arith, e, f)
    | inr (xs, f) ↦ ground (arith, e, f, texts_of-strings xs)
  ]
  | inr (vs, e) ↦ elim (Option-cases i.excludes) [
    | inl f ↦ ground (arith, e, f, texts_of-strings vs)
    | inr (xs, f) ↦ ground (arith, e, f, texts_of-strings vs, texts_of-strings xs)
  ]
]

-- Every member has the kind of its key.
abbrev pub Typed : (Bytes → Kind) → Fields → Type 0
Typed kinds Fields.end = Unit
Typed kinds (Fields.field k v fs) = (has_kind (kinds k) v ≡ true) × Typed kinds fs

-- The kinds of a status object: strings, but for the members named here.
abbrev pub status_kind : Bytes → Kind
status_kind k =
    if bytes_eq k (codes "plugged")
    then is_boolean
    else if bytes_eq k (codes "tetheringEnabled")
    then is_boolean
    else if bytes_eq k (codes "isWakeOnWifiEnabled")
    then is_boolean
    else if bytes_eq k (codes "checkingInternet")
    then is_boolean
    else if bytes_eq k (codes "ipv6")
    then is_ipv6
    else if bytes_eq k (codes "proxyinfo")
    then is_proxyinfo
    else if bytes_eq k (codes "nap")
    then is_object
    else is_text

-- "state" is "connected" or "disconnected".
abbrev pub HasState : Fields → Type 0
HasState fs =
    (find_field (codes "state") fs ≡ some (a_text "connected"))
    ⊎ (find_field (codes "state") fs ≡ some (a_text "disconnected"))

abbrev pub IsStatus : Fields → Type 0
IsStatus fs = Typed status_kind fs × HasState fs

pub member-IsStatus :
    (key : String) (v : Json) (fs : Fields)
    → bytes_eq (codes key) (codes "state") ≡ false
    → has_kind (status_kind (codes key)) v ≡ true
    → IsStatus fs
    → IsStatus (member key v fs)
member-IsStatus key v fs apart kind (typed, state) = rw apart ((kind, typed), state)

put_text-IsStatus :
    (key : String) (o : Option Bytes) (fs : Fields)
    → bytes_eq (codes key) (codes "state") ≡ false
    → status_kind (codes key) ≡ is_text
    → IsStatus fs
    → IsStatus (put_text key o fs)
put_text-IsStatus key none fs apart kind h = h
put_text-IsStatus key (some v) fs apart kind h =
    member-IsStatus key (Json.text v) fs apart (rw kind refl) h

put_dns-IsStatus :
    (i : ℕ) (ds : List Bytes) (fs : Fields) → IsStatus fs → IsStatus (put_dns i ds fs)
unfolding put_dns
put_dns-IsStatus i [] fs h = h
put_dns-IsStatus i (d ∷ ds) fs (typed, state) =
    put_dns-IsStatus (suc i) ds (Fields.field (codes "dns" ++ decimal (i + 1)) (Json.text d) fs)
      ((refl, typed), state)

put_addresses-IsStatus :
    (i : IpInfo) (fs : Fields) → Typed status_kind fs → IsStatus (put_addresses i fs)
put_addresses-IsStatus i fs typed = put_text-IsStatus "gateway" i.ipv4.gateway _ refl refl (
    put_text-IsStatus "netmask" i.ipv4.netmask _ refl refl (
      put_text-IsStatus "ipAddress" i.ipv4.address _ refl refl
        (put_text-IsStatus "interfaceName" i.iface _ refl refl ((refl, typed), inl refl))))

put_wifi-IsStatus :
    (r : Remote) (s : Service) (fs : Fields) → IsStatus fs → IsStatus (put_wifi r s fs)
put_wifi-IsStatus r s fs h = elim (Bool-cases (connman_service_type_wifi (some s))) [
  | inl e ↦ rw e (
      member-IsStatus "isWakeOnWifiEnabled" (Json.boolean false) _ refl refl
        (put_text-IsStatus "ssid" (utf8_of r s.name) fs refl refl h))
  | inr e ↦ rw e h
]

put_internet-IsStatus : (s : Service) (fs : Fields) → IsStatus fs → IsStatus (put_internet s fs)
put_internet-IsStatus s fs h =
    let answer = a_text (if connman_service_is_online s then "yes" else "no") in
    member-IsStatus "checkingInternet" (Json.boolean s.online_checking)
      (member "onInternet" answer fs) refl refl (member-IsStatus "onInternet" answer fs refl refl h)

put_ipv6-IsStatus : (i : Ipv6Info) (fs : Fields) → IsStatus fs → IsStatus (put_ipv6 i fs)
unfolding put_ipv6
put_ipv6-IsStatus i fs h = elim (Option-cases i.address) [
  | inl e ↦ rw e h
  | inr (a, e) ↦ rw e (member-IsStatus "ipv6" (ipv6_object i a) fs refl (ipv6_object-kind i a) h)
]

put_method-IsStatus :
    (i : ProxyInfo) (o : Option Bytes) (fs : Fields)
    → IsStatus fs
    → IsStatus (elim o [ none ↦ fs | some method ↦ member "proxyinfo" (proxy_object i method) fs ])
put_method-IsStatus i none fs h = h
put_method-IsStatus i (some method) fs h =
    member-IsStatus "proxyinfo" (proxy_object i method) fs refl (proxy_object-kind i method) h

put_proxy-IsStatus : (i : ProxyInfo) (fs : Fields) → IsStatus fs → IsStatus (put_proxy i fs)
unfolding put_proxy
put_proxy-IsStatus i fs h = put_method-IsStatus i i.method fs h

pub update_connection_status-IsStatus :
    (r : Remote) (s : Service) (fs : Fields)
    → Typed status_kind fs
    → IsStatus (update_connection_status r s fs).1
unfolding update_connection_status
update_connection_status-IsStatus r s fs typed =
    let located = (connman_service_get_ipinfo r.char_value (r.ip_reply s) s).1 in
    let proxied = (connman_service_get_proxyinfo (r.proxy_reply located) located).1 in
    let i = located.ipinfo in
    let addressed =
      put_dns-IsStatus 0 (strv i.dns) (put_addresses i fs) (put_addresses-IsStatus i fs typed) in
    let addresses = put_dns 0 (strv i.dns) (put_addresses i fs) in
    let wireless =
      put_wifi-IsStatus r located (put_text "method" i.ipv4.method addresses)
        (put_text-IsStatus "method" i.ipv4.method addresses refl refl addressed) in
    let fs1 = put_wifi r located (put_text "method" i.ipv4.method addresses) in
    let fs2 = put_internet located fs1 in
    let connected =
      put_proxy-IsStatus proxied.proxyinfo (put_ipv6 i.ipv6 fs2)
        (put_ipv6-IsStatus i.ipv6 fs2 (put_internet-IsStatus located fs1 wireless)) in
    elim (Bool-cases (counts_as_connected s)) [
      | inr c ↦ rw (Typed, c) ((refl, typed), inr refl)
      | inl c ↦ rw (Typed, c) connected
    ]
