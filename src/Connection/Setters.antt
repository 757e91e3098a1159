-- ===== src/Connection/Setters.antt =====
-- The handlers of src/connectionmanager_service.c that set addresses, DNS servers and proxies, with
-- the remote calls of src/connman_service.c that they make.
use webos_connman_adapter.Base.{
  ℕ, Bool, true, false, ◌&&◌, List, [], ◌∷◌, ◌++◌, Option, none, some, String, leb, if◌then◌else◌,
  is_some, Bytes, bytes_eq0, codes,
}
use webos_connman_adapter.Platform.{Platform}
use webos_connman_adapter.Common.{Reply, ErrorCode, connman_status_check, is_valid_ipaddress}
use webos_connman_adapter.Service.Info.{ℤ, pos, negsuc, Ipv4Info, Ipv6Info, ProxyInfo}
use webos_connman_adapter.Service.State.{Service}
use webos_connman_adapter.Profile.State.{State, Profile, get_profile_by_ssid, security_0}
use webos_connman_adapter.Manager.State.{Manager}
use webos_connman_adapter.Config.KeyFile.{KeyFiles}
use webos_connman_adapter.Config.Change.{change_network_ipv4, change_network_remove_entry}

-- A value of the dictionary that is sent to connman.
pub data Value : Type 0 where
  string : Bytes → Value
  byte : ℕ → Value
  strings : List Bytes → Value

-- A remote call that sets a property of the service with the path.
pub data Setting : Type 0 where
  ipv4 ipv6 proxy : List (Bytes × Value) → Setting
  nameservers : List Bytes → Setting

pub record SetCall : Type 0 where
  pub path : String
  pub setting : Setting

-- The manager, the profiles with the config files, and the calls, newest first.
pub record Settable (Prefs : Type 0) : Type 0 where
  pub manager : Option Manager
  pub profiles : State Prefs
  pub calls : List SetCall

abbrev pub entry : String → Option Bytes → List (Bytes × Value)
entry key none = []
entry key (some v) = (codes key, string v) ∷ []

abbrev pub entries : String → Option (List Bytes) → List (Bytes × Value)
entries key none = []
entries key (some vs) = (codes key, strings vs) ∷ []

-- The dictionaries of `connman_service_set_ipv4`, `…_ipv6` and `…_proxy`.
unfoldable pub ipv4_dictionary : Ipv4Info → List (Bytes × Value)
ipv4_dictionary i =
    entry "Method" i.method
    ++ (entry "Address" i.address ++ (entry "Netmask" i.netmask ++ entry "Gateway" i.gateway))

abbrev pub prefix_entry : ℤ → List (Bytes × Value)
prefix_entry (pos n) = if leb n 128 then (codes "PrefixLength", byte n) ∷ [] else []
prefix_entry (negsuc n) = []

unfoldable pub ipv6_dictionary : Ipv6Info → List (Bytes × Value)
ipv6_dictionary i =
    entry "Method" i.method
    ++ (entry "Address" i.address ++ (prefix_entry i.prefix_length ++ entry "Gateway" i.gateway))

unfoldable pub proxy_dictionary : ProxyInfo → List (Bytes × Value)
proxy_dictionary i =
    entry "Method" i.method
    ++ (entry "URL" i.url ++ (entries "Servers" i.servers ++ entries "Excludes" i.excludes))

-- The first wifi service of the name, or with a NULL name the first wired service.
abbrev pub find_named : (String → Bytes) → Bytes → List Service → Option Service
find_named utf8 ssid [] = none
find_named utf8 ssid (s ∷ ss) =
    let rest = find_named utf8 ssid ss in
    if bytes_eq0 (elim s.name as (λ o. Option Bytes) [ none ↦ none | some n ↦ some (utf8 n) ])
      (some ssid)
    then some s
    else rest

abbrev first_of : List Service → Option Service
first_of [] = none
first_of (s ∷ ss) = some s

unfoldable pub retrieve_service_by_ssid : (String → Bytes) → Option Bytes → Manager → Option Service
retrieve_service_by_ssid utf8 none m = first_of m.wired_services
retrieve_service_by_ssid utf8 (some ssid) m = find_named utf8 ssid m.wifi_services

-- The test of an argument that may be missing.
abbrev pub passes : (Bytes → Bool) → Option Bytes → Bool
passes valid none = true
passes valid (some a) = valid a

abbrev pub all_pass : (Bytes → Bool) → List Bytes → Bool
all_pass valid [] = true
all_pass valid (a ∷ as') = let rest = all_pass valid as' in if valid a then rest else false

-- What a handler depends on: the libraries, `inet_pton` for both families, whether a file can be
-- written, whether a remote call works.
pub record Host : Type 1 where
  pub platform : Platform
  pub keys : KeyFiles
  pub utf8 : String → Bytes
  pub inet_pton6 : Bytes → Bool
  pub inet_pton4 : Bytes → Bool
  pub can_write : Bytes → Bool
  pub call_works : SetCall → Bool

module _ (h : Host) where
  abbrev pub Handled : Type 0
  Handled = Reply × Settable h.platform.Prefs

  -- The remote call and its reply.
  unfoldable pub set_remote : SetCall → Settable h.platform.Prefs → Handled
  set_remote call c = (
    if h.call_works call then Reply.success else Reply.error_unknown,
    record c { calls = call ∷ c.calls },
  )

  abbrev pub replied : Bool × State h.platform.Prefs → Settable h.platform.Prefs → Handled
  replied r c = (if r.0 then Reply.success else Reply.error_unknown, record c { profiles = r.1 })

  -- The profile of the name, if it is configured.
  abbrev pub configured_profile : Option Bytes → Settable h.platform.Prefs → Option Profile
  configured_profile ssid c = elim (get_profile_by_ssid ssid c.profiles.wifi_profile_list) [
    | none ↦ none
    | some p ↦ if p.configured then some p else none
  ]

  -- The part for a network that is out of range; `none` is the read of `security[0]` through NULL.
  unfoldable pub set_ipv4_of_profile :
      Ipv4Info → Profile → Settable h.platform.Prefs → Option Handled
  set_ipv4_of_profile i profile c = elim profile.security [
    | none ↦
        if bytes_eq0 i.method (some (codes "manual"))
        then (if is_some i.address && is_some i.netmask && is_some i.gateway
            then none
            else some (Reply.custom_error ErrorCode.invalid_parameters, c))
        else if bytes_eq0 i.method (some (codes "dhcp"))
        then none
        else some (Reply.invalid_params, c)
    | some ss ↦
        let security = security_0 ss in
        let stored =
          change_network_ipv4 h.platform h.keys h.can_write (some profile.ssid) security i.address
            i.netmask i.gateway c.profiles in
        let removed =
          change_network_remove_entry h.platform h.keys h.can_write (some profile.ssid) security
            (some (codes "IPv4")) c.profiles in
        if bytes_eq0 i.method (some (codes "manual"))
        then (if is_some i.address && is_some i.netmask && is_some i.gateway
            then some (replied stored c)
            else some (Reply.custom_error ErrorCode.invalid_parameters, c))
        else if bytes_eq0 i.method (some (codes "dhcp"))
        then some (replied removed c)
        else some (Reply.invalid_params, c)
  ]

  -- The arguments have passed the schema.
  unfoldable pub handle_set_ipv4_command :
      Ipv4Info → Option Bytes → Settable h.platform.Prefs → Option Handled
  unfolding set_remote set_ipv4_of_profile retrieve_service_by_ssid ipv4_dictionary
  handle_set_ipv4_command i ssid c =
      let valid = is_valid_ipaddress h.inet_pton6 h.inet_pton4 in
      elim c.manager [
        | none ↦ some (Reply.custom_error ErrorCode.connman_unavailable, c)
        | some m ↦ elim (connman_status_check (some m)) [
          | some reply ↦ some (reply, c)
          | none ↦
              if passes valid i.address && passes valid i.netmask && passes valid i.gateway
              then elim (retrieve_service_by_ssid h.utf8 ssid m) [
                | some s ↦
                    some
                      (set_remote (record { path = s.path; setting = ipv4 (ipv4_dictionary i) }) c)
                | none ↦ elim (configured_profile ssid c) [
                  | none ↦ some (Reply.custom_error ErrorCode.network_not_found, c)
                  | some profile ↦ set_ipv4_of_profile i profile c
                ]
              ]
              else some (Reply.invalid_params, c)
        ]
      ]
