-- ===== src/Wifi/Networks.antt =====
-- `add_service`, `add_service_from_profile`, `find_saved_service_by_profile` and
-- `populate_wifi_networks` of src/wifi_service.c: the networks that clients are told of. The JSON
-- that they are told is a list of records here. `none` as a result is a read through NULL.
use webos_connman_adapter.Base.{
  ℕ, Bool, true, false, ◌&&◌, not, List, [], ◌∷◌, ◌++◌, map, Option, none, some, String, ◌==◌,
  if◌then◌else◌, is_some, Bytes, bytes_eq, bytes_eq0,
}
use webos_connman_adapter.Profile.State.{
  Profile, security_0, get_profile_by_ssid_security, profiles_in_order,
}
use webos_connman_adapter.Service.Kind.{
  ServiceState, idle, wifi, connman_service_get_state, connman_service_get_webos_state,
}
use webos_connman_adapter.Service.Info.{ℤ}
use webos_connman_adapter.Service.State.{BssInfo, Service, same_type}
use webos_connman_adapter.Manager.State.{Manager}
use webos_connman_adapter.Manager.Services.{is_in}
use webos_connman_adapter.Wifi.Signal.{signal_strength_to_bars, compare_signal_strength}

-- A "networkInfo": the members that are put are `some`, lists that are not put are empty.
pub record NetworkInfo : Type 0 where
  pub display_name : Option Bytes
  pub ssid : Bytes
  pub profile_id : Option ℕ
  pub available_security_types : List Bytes
  pub signal_bars : Option ℕ
  pub signal_level : Option ℕ
  pub bss_info : Option (List BssInfo)
  pub supported : Bool
  pub available : Bool
  pub connect_state : Option String

-- `g_strv_length` of a `GStrv` that may be NULL, as the list of its strings.
abbrev pub strings_of {ℓ} : {A : Type ℓ} → Option (List A) → List A
strings_of none = []
strings_of (some ss) = ss

abbrev first_string : List String → Option String
first_string [] = none
first_string (s ∷ ss) = some s

abbrev is_idle : ServiceState → Bool
is_idle idle = true
is_idle _ = false

-- A state that is there and not idle.
abbrev pub has_connect_state : Service → Bool
has_connect_state s = is_some s.state && not (is_idle (connman_service_get_state s.state))

-- `connman_service_register_property_changed_cb` for a service that `add_service` lists.
abbrev pub watch : Service → Service
watch s =
    if is_some s.name && has_connect_state s
    then record s { handle_property_change_fn = true }
    else s

-- `utf8` gives the bytes of a text; `profiles` is the profile list.
module _ (utf8 : String → Bytes) (profiles : List Profile) where
  abbrev pub profile_of : String → Option (List String) → Option Profile
  profile_of name none = none
  profile_of name (some ss) =
      get_profile_by_ssid_security (some (utf8 name)) (security_0 (map utf8 ss)) profiles

  -- The object that `add_service` fills in. The members of the first `available` block are left
  -- out for a service out of range.
  abbrev pub info_of : Bool → String → Service → NetworkInfo
  info_of available name s = record {
    display_name = if is_some s.display_name then s.display_name else some (utf8 name);
    ssid = utf8 name;
    profile_id = elim (profile_of name s.security) [ none ↦ none | some q ↦ some q.profile_id ];
    available_security_types = if available then map utf8 (strings_of s.security) else [];
    signal_bars =
        if available && not (s.strength == 0)
        then some (signal_strength_to_bars s.strength)
        else none;
    signal_level = if available && not (s.strength == 0) then some s.strength else none;
    bss_info = if available then s.bss else none;
    supported = true;
    available = available;
    connect_state =
        if has_connect_state s
        then some (connman_service_get_webos_state (connman_service_get_state s.state))
        else none;
  }

  -- The object, or `none` for the result false, and the service with its handler.
  unfoldable pub add_service : Bool → Service → Option NetworkInfo × Service
  add_service available s = elim s.name [
    | none ↦ (none, watch s)
    | some name ↦ (some (info_of available name s), watch s)
  ]

  abbrev pub put : Option NetworkInfo → List NetworkInfo → List NetworkInfo
  put none infos = infos
  put (some i) infos = i ∷ infos

  -- The first loop of `populate_wifi_networks`.
  unfoldable pub add_services : List Service → List NetworkInfo × List Service
  unfolding add_service
  add_services [] = ([], [])
  add_services (s ∷ ss) =
      let (infos, rest) = add_services ss in
      let (info, s') = add_service true s in (put info infos, s' ∷ rest)

  -- The second loop, over the saved services.
  unfoldable pub add_saved_services : List Service → List Service → List NetworkInfo × List Service
  unfolding add_service
  add_saved_services wifi_services [] = ([], [])
  add_saved_services wifi_services (s ∷ ss) =
      let (infos, rest) = add_saved_services wifi_services ss in
      let (info, s') = add_service false s in
      if same_type s.type wifi && not (is_in s.path wifi_services)
      then (put info infos, s' ∷ rest)
      else (infos, s ∷ rest)

  abbrev pub info_from_profile : Profile → NetworkInfo
  info_from_profile q = record {
    display_name = none;
    ssid = q.ssid;
    profile_id = some q.profile_id;
    available_security_types = strings_of q.security;
    signal_bars = none;
    signal_level = none;
    bss_info = none;
    supported = true;
    available = false;
    connect_state = none;
  }

  -- The test of the first security type of a service against that of a profile; both are read
  -- through pointers that can be NULL.
  abbrev pub accepts_first : Option (List String) → Option (List Bytes) → Option Bool
  accepts_first none security = none
  accepts_first (some []) security = some true
  accepts_first (some (t ∷ ts)) none = none
  accepts_first (some (t ∷ ts)) (some ss) = some (bytes_eq0 (some (utf8 t)) (security_0 ss))

  unfoldable pub find_saved_service_by_profile : Profile → List Service → Option Bool
  find_saved_service_by_profile q [] = some false
  find_saved_service_by_profile q (s ∷ ss) =
      let rest = find_saved_service_by_profile q ss in
      elim s.name [
        | none ↦ rest
        | some name ↦
            if bytes_eq (utf8 name) q.ssid
            then elim (accepts_first s.security q.security) [
              | none ↦ none
              | some true ↦ some true
              | some false ↦ rest
            ]
            else rest
      ]

  -- The third loop, over the profiles.
  unfoldable pub add_profiles : List Service → List Profile → Option (List NetworkInfo)
  unfolding find_saved_service_by_profile
  add_profiles saved [] = some []
  add_profiles saved (q ∷ qs) =
      let rest = add_profiles saved qs in
      if q.configured
      then elim (find_saved_service_by_profile q saved) [
        | none ↦ none
        | some true ↦ rest
        | some false ↦ elim rest [ none ↦ none | some infos ↦ some (info_from_profile q ∷ infos) ]
      ]
      else rest

  -- `g_slist_sort` takes the comparison. The result has the networks and the manager, with its
  -- wifi services in their new order.
  module _ (g_slist_sort : (Service → Service → ℤ) → List Service → List Service) where
    unfoldable pub populate_wifi_networks : Bool → Manager → Option (List NetworkInfo × Manager)
    unfolding add_services add_saved_services add_profiles
    populate_wifi_networks show_saved_nw m =
        let sorted = g_slist_sort compare_signal_strength m.wifi_services in
        let (infos, wifi_services) = add_services sorted in
        let (saved, saved_services) = add_saved_services wifi_services m.saved_services in
        let from_profiles = add_profiles saved_services (profiles_in_order profiles) in
        if show_saved_nw
        then elim from_profiles [
          | none ↦ none
          | some ps ↦ some (
            infos ++ (saved ++ ps),
            record m { wifi_services = wifi_services; saved_services = saved_services },
          )
        ]
        else some (infos, record m { wifi_services = wifi_services })
