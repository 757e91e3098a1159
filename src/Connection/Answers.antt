-- ===== src/Connection/Answers.antt =====
-- When the handlers of src/connectionmanager_service.c that set something of a network answer.
use webos_connman_adapter.Base.{
  ◌≡◌, refl, inl, inr, ◌≤◌, true, false, List, Option, some, is_some, All, length, Bytes, bytes_eq0,
  codes, Option-cases, arith,
}
use webos_connman_adapter.Service.Info.{Ipv4Info, Ipv6Info, ProxyInfo}
use webos_connman_adapter.Profile.State.{Profile, security_0}
use webos_connman_adapter.Config.Kept.{change_network_dns-some}
use webos_connman_adapter.Connection.Setters.{
  Settable, Host, set_ipv4_of_profile, handle_set_ipv4_command, configured_profile,
}
use webos_connman_adapter.Connection.Handlers.{
  set_ipv6_of_profile, handle_set_ipv6_command, set_dns_of_profile, handle_set_dns_command,
  handle_set_proxy_command, Request, handle_request,
}

-- A request without a fixed address of IPv6 and without a DNS server of more than 15 bytes.
abbrev pub Answerable : Request → Type 0
Answerable (Request.set_ipv4 i) = Unit
Answerable (Request.set_ipv6 i) = bytes_eq0 i.method (some (codes "manual")) ≡ false
Answerable (Request.set_dns dns) = All (λ d. length d ≤ 15) dns
Answerable (Request.set_proxy i) = Unit

module _ (h : Host) (ssid : Option Bytes) (c : Settable h.platform.Prefs) where
  set_ipv4_of_profile-some :
      (i : Ipv4Info) (profile : Profile)
      → is_some profile.security ≡ true
      → is_some (set_ipv4_of_profile h i profile c) ≡ true
  unfolding set_ipv4_of_profile
  set_ipv4_of_profile-some i profile e = ground arith

  set_ipv6_of_profile-some :
      (i : Ipv6Info) (profile : Profile)
      → is_some profile.security ≡ true
      → bytes_eq0 i.method (some (codes "manual")) ≡ false
      → is_some (set_ipv6_of_profile h i profile c) ≡ true
  unfolding set_ipv6_of_profile
  set_ipv6_of_profile-some i profile e f = ground arith

  set_dns_of_profile-some :
      (dns : List Bytes) (profile : Profile)
      → is_some profile.security ≡ true
      → All (λ d. length d ≤ 15) dns
      → is_some (set_dns_of_profile h dns profile c) ≡ true
  unfolding set_dns_of_profile
  set_dns_of_profile-some dns profile e f = elim (Option-cases profile.security) [
    | inl g ↦ ground arith
    | inr (ss, g) ↦
        let (r, q) =
          change_network_dns-some h.platform h.keys h.can_write (some profile.ssid) (security_0 ss)
            dns c.profiles f in
        rw (set_dns_of_profile, g, q) refl
  ]

  -- For a handler: it answers where it does so for the profile of the name.
  handle_set_ipv4_command-some :
      (i : Ipv4Info)
      → ((profile : Profile)
          → configured_profile h ssid c ≡ some profile
          → is_some (set_ipv4_of_profile h i profile c) ≡ true)
      → is_some (handle_set_ipv4_command h i ssid c) ≡ true
  unfolding handle_set_ipv4_command
  handle_set_ipv4_command-some i e = elim (Option-cases (configured_profile h ssid c)) [
    | inl f ↦ ground (arith, f)
    | inr (profile, f) ↦ ground (arith, f, e profile f)
  ]

  handle_set_ipv6_command-some :
      (i : Ipv6Info)
      → ((profile : Profile)
          → configured_profile h ssid c ≡ some profile
          → is_some (set_ipv6_of_profile h i profile c) ≡ true)
      → is_some (handle_set_ipv6_command h i ssid c) ≡ true
  unfolding handle_set_ipv6_command
  handle_set_ipv6_command-some i e = elim (Option-cases (configured_profile h ssid c)) [
    | inl f ↦ ground (arith, f)
    | inr (profile, f) ↦ ground (arith, f, e profile f)
  ]

  handle_set_dns_command-some :
      (dns : List Bytes)
      → ((profile : Profile)
          → configured_profile h ssid c ≡ some profile
          → is_some (set_dns_of_profile h dns profile c) ≡ true)
      → is_some (handle_set_dns_command h dns ssid c) ≡ true
  unfolding handle_set_dns_command
  handle_set_dns_command-some dns e = elim (Option-cases (configured_profile h ssid c)) [
    | inl f ↦ ground (arith, f)
    | inr (profile, f) ↦ ground (arith, f, e profile f)
  ]

  handle_set_proxy_command-some :
      (i : ProxyInfo) → is_some (handle_set_proxy_command h i ssid c) ≡ true
  unfolding handle_set_proxy_command
  handle_set_proxy_command-some i = ground arith

  -- Where the configured profile of the SSID, if there is one, has its security, `handle_request`
  -- answers a request that sets no fixed address of IPv6 and no DNS server of more than 15 bytes.
  pub handle_request-some :
      (request : Request)
      → Answerable request
      → ((profile : Profile)
          → configured_profile h ssid c ≡ some profile
          → is_some profile.security ≡ true)
      → is_some (handle_request h request ssid c) ≡ true
  unfolding handle_request
  handle_request-some (Request.set_ipv4 i) a secured =
      handle_set_ipv4_command-some i
        λ profile e. set_ipv4_of_profile-some i profile (secured profile e)
  handle_request-some (Request.set_ipv6 i) a secured =
      handle_set_ipv6_command-some i
        λ profile e. set_ipv6_of_profile-some i profile (secured profile e) a
  handle_request-some (Request.set_dns dns) a secured =
      handle_set_dns_command-some dns
        λ profile e. set_dns_of_profile-some dns profile (secured profile e) a
  handle_request-some (Request.set_proxy i) a secured = handle_set_proxy_command-some i
