-- ===== src/Connection/Sent.antt =====
-- What the handlers of src/connectionmanager_service.c that set something of a network send to
-- connman.
use webos_connman_adapter.Base.{
  ◌≡◌, refl, ◌⊎◌, inl, inr, ◌&&◌, List, Option, none, some, is_some, Bytes, bytes_eq0, codes,
  Bool-cases, Option-cases, arith, not, subst,
}
use webos_connman_adapter.Common.{
  Reply, ErrorCode, connman_status_check, is_valid_ipv6address, is_valid_ipaddress,
}
use webos_connman_adapter.Service.Info.{Ipv4Info, Ipv6Info, ProxyInfo}
use webos_connman_adapter.Service.State.{Service}
use webos_connman_adapter.Manager.State.{Manager}
use webos_connman_adapter.Profile.State.{Profile}
use webos_connman_adapter.Connection.Setters.{
  Setting, Settable, Host, Handled, set_remote, retrieve_service_by_ssid, passes, all_pass,
  ipv4_dictionary, ipv6_dictionary, proxy_dictionary, set_ipv4_of_profile, handle_set_ipv4_command,
  configured_profile,
}
use webos_connman_adapter.Connection.Handlers.{
  valid_server, set_ipv6_of_profile, handle_set_ipv6_command, set_dns_of_profile,
  handle_set_dns_command, handle_set_proxy_command, Request, handle_request,
}
use webos_connman_adapter.Connection.Sound.{
  Sound, ipv4_dictionary-Sound, ipv6_dictionary-Sound, all_pass-All,
}

-- What a handled request leaves: no call, or one.
abbrev pub Outcome : (h : Host) → Option Bytes → Settable h.platform.Prefs → Handled h → Type 0
Outcome h ssid c r =
    (r.1.calls ≡ c.calls)
    ⊎ ((m : Manager) × (s : Service) × (setting : Setting) × (c.manager ≡ some m)
        × (retrieve_service_by_ssid h.utf8 ssid m ≡ some s)
        × Sound h setting
        × (r ≡ set_remote h (record { path = s.path; setting = setting }) c))

abbrev Good : (h : Host) → Option Bytes → Settable h.platform.Prefs → Option (Handled h) → Type 0
Good h ssid c none = Unit
Good h ssid c (some r) = Outcome h ssid c r

Good-Outcome :
    (h : Host) (ssid : Option Bytes) (c : Settable h.platform.Prefs) (o : Option (Handled h))
    (r : Handled h)
    → Good h ssid c o
    → o ≡ some r
    → Outcome h ssid c r
Good-Outcome h ssid c o r good e = subst (Good h ssid c) e good

module _ (h : Host) (ssid : Option Bytes) (c : Settable h.platform.Prefs) where
  set_ipv4_of_profile-calls :
      (i : Ipv4Info) (profile : Profile) (r : Handled h)
      → set_ipv4_of_profile h i profile c ≡ some r
      → r.1.calls ≡ c.calls
  unfolding set_ipv4_of_profile
  set_ipv4_of_profile-calls i profile r e = ground arith

  set_ipv6_of_profile-calls :
      (i : Ipv6Info) (profile : Profile) (r : Handled h)
      → set_ipv6_of_profile h i profile c ≡ some r
      → r.1.calls ≡ c.calls
  unfolding set_ipv6_of_profile
  set_ipv6_of_profile-calls i profile r e = ground arith

  set_dns_of_profile-calls :
      (dns : List Bytes) (profile : Profile) (r : Handled h)
      → set_dns_of_profile h dns profile c ≡ some r
      → r.1.calls ≡ c.calls
  unfolding set_dns_of_profile
  set_dns_of_profile-calls dns profile r e = ground arith

  -- The part that the handlers share: the service of the name, or what is done without.
  remote-Good :
      (m : Manager) (setting : Setting) (rest : Option (Handled h))
      → c.manager ≡ some m
      → Sound h setting
      → Good h ssid c rest
      → Good h ssid c (elim (retrieve_service_by_ssid h.utf8 ssid m) [
        | some s ↦ some (set_remote h (record { path = s.path; setting = setting }) c)
        | none ↦ rest
      ])
  remote-Good m setting rest present sound good =
      elim (Option-cases (retrieve_service_by_ssid h.utf8 ssid m)) [
        | inl e ↦ rw e good
        | inr (s, e) ↦ rw e (inr (m, s, setting, present, e, sound, refl))
      ]

  configured-Good :
      (missing : Handled h) (rest : Profile → Option (Handled h))
      → missing.1.calls ≡ c.calls
      → ((profile : Profile) (r : Handled h) → rest profile ≡ some r → r.1.calls ≡ c.calls)
      → Good h ssid c
          (elim (configured_profile h ssid c) [ none ↦ some missing | some profile ↦ rest profile ])
  configured-Good missing rest same kept = elim (Option-cases (configured_profile h ssid c)) [
    | inl e ↦ rw e (inl same)
    | inr (profile, e) ↦ elim (Option-cases (rest profile)) [
      | inl f ↦ rw (e, f) tt
      | inr (r, f) ↦ rw (e, f) (inl (kept profile r f))
    ]
  ]

  manager-Good :
      (o : Option Manager) (rest : Manager → Option (Handled h))
      → ((m : Manager) → o ≡ some m → Good h ssid c (rest m))
      → Good h ssid c (elim o [
        | none ↦ some (Reply.custom_error ErrorCode.connman_unavailable, c)
        | some m ↦ elim (connman_status_check (some m)) [
          | some reply ↦ some (reply, c)
          | none ↦ rest m
        ]
      ])
  manager-Good none rest good = inl refl
  manager-Good (some m) rest good = elim (Option-cases (connman_status_check (some m))) [
    | inl f ↦ rw f (good m refl)
    | inr (reply, f) ↦ rw f (inl refl)
  ]

  handle_set_ipv4_command-Good : (i : Ipv4Info) → Good h ssid c (handle_set_ipv4_command h i ssid c)
  unfolding handle_set_ipv4_command
  handle_set_ipv4_command-Good i =
      let valid = is_valid_ipaddress h.inet_pton6 h.inet_pton4 in
      manager-Good c.manager _ λ m present.
        elim (Bool-cases
          (passes valid i.address && passes valid i.netmask && passes valid i.gateway)) [
            | inr e ↦ rw e (inl refl)
            | inl e ↦ rw e (
                remote-Good m (Setting.ipv4 (ipv4_dictionary i)) _ present
                  (ipv4_dictionary-Sound valid i e)
                  (configured-Good (Reply.custom_error ErrorCode.network_not_found, c)
                    (λ profile. set_ipv4_of_profile h i profile c) refl
                    (set_ipv4_of_profile-calls i)))
          ]

  handle_set_ipv6_command-Good : (i : Ipv6Info) → Good h ssid c (handle_set_ipv6_command h i ssid c)
  unfolding handle_set_ipv6_command
  handle_set_ipv6_command-Good i =
      let valid = is_valid_ipv6address h.inet_pton6 h.inet_pton4 in
      manager-Good c.manager _ λ m present.
        elim (Bool-cases (passes valid i.address && passes valid i.gateway)) [
          | inr e ↦ rw e (inl refl)
          | inl e ↦ rw e (
              remote-Good m (Setting.ipv6 (ipv6_dictionary i)) _ present
                (ipv6_dictionary-Sound valid i e)
                (configured-Good (Reply.custom_error ErrorCode.network_not_found, c)
                  (λ profile. set_ipv6_of_profile h i profile c) refl
                  (set_ipv6_of_profile-calls i)))
        ]

  handle_set_dns_command-Good :
      (dns : List Bytes) → Good h ssid c (handle_set_dns_command h dns ssid c)
  unfolding handle_set_dns_command
  handle_set_dns_command-Good dns = manager-Good c.manager _ λ m present.
      elim (Bool-cases (all_pass (valid_server h) dns)) [
        | inr e ↦ rw e (inl refl)
        | inl e ↦ rw e (
            remote-Good m (Setting.nameservers dns) _ present (all_pass-All (valid_server h) dns e)
              (configured-Good (Reply.custom_error ErrorCode.no_connected_nw, c)
                (λ profile. set_dns_of_profile h dns profile c) refl
                (set_dns_of_profile-calls dns)))
      ]

  handle_set_proxy_command-Good :
      (i : ProxyInfo) → Good h ssid c (handle_set_proxy_command h i ssid c)
  unfolding handle_set_proxy_command
  handle_set_proxy_command-Good i = manager-Good c.manager _ λ m present.
      elim (Bool-cases (bytes_eq0 i.method (some (codes "manual")) && not (is_some i.servers))) [
        | inl e ↦ rw e (inl refl)
        | inr e ↦ rw e (remote-Good m (Setting.proxy (proxy_dictionary i)) _ present tt (inl refl))
      ]

  handle_request-Good : (q : Request) → Good h ssid c (handle_request h q ssid c)
  unfolding handle_request
  handle_request-Good (Request.set_ipv4 i) = handle_set_ipv4_command-Good i
  handle_request-Good (Request.set_ipv6 i) = handle_set_ipv6_command-Good i
  handle_request-Good (Request.set_dns dns) = handle_set_dns_command-Good dns
  handle_request-Good (Request.set_proxy i) = handle_set_proxy_command-Good i

-- Where `handle_request` answers, it has made no remote call, or one: that of the service which the
-- SSID names, or of the first wired service where there is none, with addresses and DNS servers
-- that are valid and a prefix length of at most 128. The reply then says whether the call worked,
-- and nothing else has changed.
pub handle_request_lem :
    (h : Host) (request : Request) (ssid : Option Bytes) (c : Settable h.platform.Prefs)
    (r : Handled h)
    → handle_request h request ssid c ≡ some r
    → (r.1.calls ≡ c.calls)
      ⊎ ((m : Manager) × (s : Service) × (setting : Setting) × (c.manager ≡ some m)
          × (retrieve_service_by_ssid h.utf8 ssid m ≡ some s)
          × Sound h setting
          × (r ≡ set_remote h (record { path = s.path; setting = setting }) c))
handle_request_lem h request ssid c r e =
    Good-Outcome h ssid c (handle_request h request ssid c) r (handle_request-Good h ssid c request)
      e
