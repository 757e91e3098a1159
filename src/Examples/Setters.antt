-- ===== src/Examples/Setters.antt =====
-- The handlers that set addresses, run on a connected wifi network.
use webos_connman_adapter.Base.{
  ◌≡◌, refl, ◌⊎◌, Bool, true, false, List, [], ◌∷◌, some, is_some, Bytes, bytes_eq, codes, ◌||◌,
  arith,
}
use webos_connman_adapter.Common.{connman_status_check, is_valid_ipaddress}
use webos_connman_adapter.Service.Info.{Ipv4Info}
use webos_connman_adapter.Service.State.{Service}
use webos_connman_adapter.Profile.State.{Profile, get_profile_by_ssid}
use webos_connman_adapter.Manager.State.{Manager}
use webos_connman_adapter.Connection.Setters.{
  Setting, Settable, Host, Handled, set_remote, retrieve_service_by_ssid, configured_profile,
  ipv4_dictionary,
}
use webos_connman_adapter.Connection.Handlers.{Request, handle_request}
use webos_connman_adapter.Connection.Sound.{Sound}
use webos_connman_adapter.Connection.Sent.{handle_request_lem}
use webos_connman_adapter.Connection.Answers.{handle_request-some}
use webos_connman_adapter.Examples.Host.{host}
use webos_connman_adapter.Examples.Config.{entries, stored}
use webos_connman_adapter.Examples.Connection.{home, manager}

-- An address of version 4 is one of the three below.
abbrev known : List Bytes
known = codes "10.0.0.2" ∷ codes "255.0.0.0" ∷ codes "10.0.0.1" ∷ []

abbrev is_known : List Bytes → Bytes → Bool
is_known [] a = false
is_known (k ∷ ks) a = bytes_eq k a || is_known ks a

abbrev setter : Host
setter = record {
  platform = host;
  keys = entries;
  utf8 = codes;
  inet_pton6 = λ a. false;
  inet_pton4 = is_known known;
  can_write = λ path. true;
  call_works = λ call. true;
}

abbrev before : Settable setter.platform.Prefs
before = record { manager = some manager; profiles = stored; calls = [] }

abbrev info : Ipv4Info
info = record {
  method = some (codes "manual");
  address = some (codes "10.0.0.2");
  netmask = some (codes "255.0.0.0");
  gateway = some (codes "10.0.0.1");
}

abbrev after : Handled setter
unfolding set_remote
after =
    set_remote setter (record { path = home.path; setting = Setting.ipv4 (ipv4_dictionary info) })
      before

handle_request_example :
    (after.1.calls ≡ before.calls)
    ⊎ ((m : Manager) × (s : Service) × (setting : Setting) × (before.manager ≡ some m)
        × (retrieve_service_by_ssid setter.utf8 (some (codes "home")) m ≡ some s)
        × Sound setter setting
        × (after ≡ set_remote setter (record { path = s.path; setting = setting }) before))
unfolding handle_request connman_status_check is_valid_ipaddress
handle_request_example =
    handle_request_lem setter (Request.set_ipv4 info) (some (codes "home")) before after refl

-- A network that is known and out of range.
abbrev cafe : Profile
cafe = record {
  profile_id = 777;
  ssid = codes "cafe";
  security = some (codes "psk" ∷ []);
  hidden = false;
  configured = true;
  address = 1;
}

abbrev apart : Settable setter.platform.Prefs
apart = record before { profiles = record stored { wifi_profile_list = cafe ∷ [] } }

cafe-secured :
    (profile : Profile)
    → configured_profile setter (some (codes "cafe")) apart ≡ some profile
    → is_some profile.security ≡ true
unfolding get_profile_by_ssid
cafe-secured profile e = ground (arith, e)

handle_request-some_example :
    is_some
      (handle_request setter (Request.set_dns (codes "10.0.0.1" ∷ [])) (some (codes "cafe")) apart)
    ≡ true
handle_request-some_example =
    handle_request-some setter (some (codes "cafe")) apart (Request.set_dns (codes "10.0.0.1" ∷ []))
      (omega arith, tt) cafe-secured
