-- ===== src/Connection/Handlers.antt =====
-- `handle_set_ipv6_command`, `handle_set_dns_command` and `handle_set_proxy_command` of
-- src/connectionmanager_service.c.
use webos_connman_adapter.Base.{
  not, Bool, false, ◌&&◌, ◌||◌, List, Option, none, some, ◌==◌, if◌then◌else◌, is_some, Bytes,
  bytes_eq0, codes,
}
use webos_connman_adapter.Common.{
  Reply, ErrorCode, connman_status_check, is_valid_ipv6address, is_valid_ipaddress,
}
use webos_connman_adapter.Service.Info.{ℤ, pos, negsuc, Ipv4Info, Ipv6Info, ProxyInfo}
use webos_connman_adapter.Profile.State.{Profile, security_0}
use webos_connman_adapter.Config.Change.{change_network_dns, change_network_remove_entry}
use webos_connman_adapter.Connection.Setters.{
  Setting, Settable, Host, Handled, set_remote, replied, configured_profile, ipv6_dictionary,
  proxy_dictionary, retrieve_service_by_ssid, passes, all_pass, handle_set_ipv4_command,
}

abbrev is_zero : ℤ → Bool
is_zero (pos n) = n == 0
is_zero (negsuc n) = false

-- The test of a DNS server.
abbrev pub valid_server : Host → Bytes → Bool
valid_server h a =
    is_valid_ipaddress h.inet_pton6 h.inet_pton4 a
    || is_valid_ipv6address h.inet_pton6 h.inet_pton4 a

module _ (h : Host) where
  -- `none` is a read through a bad pointer: `security[0]` through NULL, or the prefix length, a
  -- number, which `change_network_ipv6` takes for the address of a text.
  unfoldable pub set_ipv6_of_profile :
      Ipv6Info → Profile → Settable h.platform.Prefs → Option (Handled h)
  set_ipv6_of_profile i profile c =
      let removed = elim profile.security as (λ o. Option (Handled h)) [
        | none ↦ none
        | some ss ↦ some (
            replied h
              (change_network_remove_entry h.platform h.keys h.can_write (some profile.ssid)
                (security_0 ss) (some (codes "IPv6")) c.profiles)
              c)
      ] in
      if bytes_eq0 i.method (some (codes "manual"))
      then (if is_some i.address && is_some i.gateway
          then (if is_zero i.prefix_length
              then some (Reply.custom_error ErrorCode.invalid_parameters, c)
              else none)
          else some (Reply.custom_error ErrorCode.invalid_parameters, c))
      else if bytes_eq0 i.method (some (codes "dhcp"))
      then removed
      else some (Reply.invalid_params, c)

  unfoldable pub handle_set_ipv6_command :
      Ipv6Info → Option Bytes → Settable h.platform.Prefs → Option (Handled h)
  unfolding set_remote set_ipv6_of_profile retrieve_service_by_ssid ipv6_dictionary
  handle_set_ipv6_command i ssid c =
      let valid = is_valid_ipv6address h.inet_pton6 h.inet_pton4 in
      elim c.manager [
        | none ↦ some (Reply.custom_error ErrorCode.connman_unavailable, c)
        | some m ↦ elim (connman_status_check (some m)) [
          | some reply ↦ some (reply, c)
          | none ↦
              if passes valid i.address && passes valid i.gateway
              then elim (retrieve_service_by_ssid h.utf8 ssid m) [
                | some s ↦ some (
                    set_remote h
                      (record { path = s.path; setting = Setting.ipv6 (ipv6_dictionary i) }) c)
                | none ↦ elim (configured_profile h ssid c) [
                  | none ↦ some (Reply.custom_error ErrorCode.network_not_found, c)
                  | some profile ↦ set_ipv6_of_profile i profile c
                ]
              ]
              else some (Reply.invalid_params, c)
        ]
      ]

  -- `none` also where `change_network_dns` writes past its buffer.
  unfoldable pub set_dns_of_profile :
      List Bytes → Profile → Settable h.platform.Prefs → Option (Handled h)
  set_dns_of_profile dns profile c = elim profile.security [
    | none ↦ none
    | some ss ↦
        elim (change_network_dns h.platform h.keys h.can_write (some profile.ssid) (security_0 ss)
          (some dns) c.profiles) [ none ↦ none | some r ↦ some (replied h r c) ]
  ]

  unfoldable pub handle_set_dns_command :
      List Bytes → Option Bytes → Settable h.platform.Prefs → Option (Handled h)
  unfolding set_remote set_dns_of_profile retrieve_service_by_ssid
  handle_set_dns_command dns ssid c =
      let valid = valid_server h in
      elim c.manager [
        | none ↦ some (Reply.custom_error ErrorCode.connman_unavailable, c)
        | some m ↦ elim (connman_status_check (some m)) [
          | some reply ↦ some (reply, c)
          | none ↦
              if all_pass valid dns
              then elim (retrieve_service_by_ssid h.utf8 ssid m) [
                | some s ↦
                    some
                      (set_remote h (record { path = s.path; setting = Setting.nameservers dns }) c)
                | none ↦ elim (configured_profile h ssid c) [
                  | none ↦ some (Reply.custom_error ErrorCode.no_connected_nw, c)
                  | some profile ↦ set_dns_of_profile dns profile c
                ]
              ]
              else some (Reply.invalid_params, c)
        ]
      ]

  unfoldable pub handle_set_proxy_command :
      ProxyInfo → Option Bytes → Settable h.platform.Prefs → Option (Handled h)
  unfolding set_remote retrieve_service_by_ssid proxy_dictionary
  handle_set_proxy_command i ssid c = elim c.manager [
    | none ↦ some (Reply.custom_error ErrorCode.connman_unavailable, c)
    | some m ↦ elim (connman_status_check (some m)) [
      | some reply ↦ some (reply, c)
      | none ↦
          if bytes_eq0 i.method (some (codes "manual")) && not (is_some i.servers)
          then some (Reply.invalid_params, c)
          else elim (retrieve_service_by_ssid h.utf8 ssid m) [
            | some s ↦ some (
                set_remote h
                  (record { path = s.path; setting = Setting.proxy (proxy_dictionary i) }) c)
            | none ↦ some (Reply.custom_error ErrorCode.no_connected_nw, c)
          ]
    ]
  ]

-- The methods of the table that set something of a network, with the arguments that pass their
-- schema.
pub data Request : Type 0 where
  set_ipv4 : Ipv4Info → Request
  set_ipv6 : Ipv6Info → Request
  set_dns : List Bytes → Request
  set_proxy : ProxyInfo → Request

unfoldable pub handle_request :
    (h : Host) → Request → Option Bytes → Settable h.platform.Prefs → Option (Handled h)
unfolding handle_set_ipv4_command handle_set_ipv6_command handle_set_dns_command
    handle_set_proxy_command
handle_request h (set_ipv4 i) ssid c = handle_set_ipv4_command h i ssid c
handle_request h (set_ipv6 i) ssid c = handle_set_ipv6_command h i ssid c
handle_request h (set_dns dns) ssid c = handle_set_dns_command h dns ssid c
handle_request h (set_proxy i) ssid c = handle_set_proxy_command h i ssid c
