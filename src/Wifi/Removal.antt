-- ===== src/Wifi/Removal.antt =====
-- `delete_profile_if_not_connected` and `remove_service_or_all_other` of src/wifi_service.c.
use webos_connman_adapter.Base.{
  ◌≡◌, refl, ap, inl, inr, Bool, true, ◌&&◌, ◌||◌, not, List, [], ◌∷◌, map, Option, none, some,
  String, str_eq, str_eq0, if◌then◌else◌, is_some, Bytes, Option-cases, arith,
}
use webos_connman_adapter.Platform.{Platform}
use webos_connman_adapter.Profile.State.{State, security_0, get_profile_by_ssid_security}
use webos_connman_adapter.Profile.Ops.{delete_profile}
use webos_connman_adapter.Service.State.{Service}
use webos_connman_adapter.Service.Update.{Texts, Property}
use webos_connman_adapter.Manager.State.{Manager}
use webos_connman_adapter.Manager.Lookup.{
  connman_manager_find_service_by_path, connman_manager_find_wifi_technology,
}
use webos_connman_adapter.Manager.Connected.{update_first_connected, connected_path}
use webos_connman_adapter.Manager.Services.{is_in}
use webos_connman_adapter.Manager.Counts.{update_properties-path, find-path}

-- The remote calls: `connman_service_set_autoconnect (…, FALSE)`, `connman_service_remove` and
-- `connman_technology_remove_saved_profiles (…, "all")`.
pub data Call : Type 0 where
  autoconnect_off service_removed : String → Call
  saved_profiles_removed : Call

-- The global manager, the profile list with what it is stored in, and the calls, newest first.
pub record Adapter (Prefs : Type 0) : Type 0 where
  pub manager : Option Manager
  pub profiles : State Prefs
  pub calls : List Call

-- Whether the loop of `remove_service_or_all_other` comes to its end for a service.
abbrev pub is_removable : String → Bool → Service → Bool
is_removable ssid others s =
    let same = str_eq0 s.name (some ssid) in
    (not others && same || others && not same)
    && is_some s.state
    && (s.favorite || s.auto_connect)
    && not s.immutable

-- What `connman_service_remove` writes into the service before its remote call.
unfoldable pub connman_service_remove : Service → Service
connman_service_remove s = record s { disconnecting = true }

-- The services after the loop, and the calls.
unfoldable pub remove_service_or_all_other :
    String → Bool → List Service → List Call → List Service × List Call
unfolding connman_service_remove
remove_service_or_all_other ssid others [] calls = ([], calls)
remove_service_or_all_other ssid others (s ∷ ss) calls =
    let touched =
      remove_service_or_all_other ssid others ss
        (service_removed s.path ∷ autoconnect_off s.path ∷ calls) in
    let skipped = remove_service_or_all_other ssid others ss calls in
    if is_removable ssid others s
    then (connman_service_remove s ∷ touched.0, touched.1)
    else (s ∷ skipped.0, skipped.1)

-- The write through the pointer to the first service of a path.
abbrev pub remove_in : String → List Service → List Service
remove_in path [] = []
remove_in path (s ∷ ss) =
    let rest = remove_in path ss in
    if str_eq s.path path then connman_service_remove s ∷ ss else s ∷ rest

module _ (p : Platform) (utf8 : String → Bytes) where
  abbrev pub utf8_of : Option String → Option Bytes
  utf8_of none = none
  utf8_of (some s) = some (utf8 s)

  -- The calls after the removal of the profile.
  abbrev pub removal_calls : String → Manager → List Call → List Call
  removal_calls path m calls =
      if is_some (connman_manager_find_wifi_technology (some m))
      then saved_profiles_removed ∷ service_removed path ∷ calls
      else service_removed path ∷ calls

  -- The block of the condition. `none` is a read through NULL.
  unfoldable pub delete_profile_of : Service → Manager → Adapter p.Prefs → Option (Adapter p.Prefs)
  unfolding connman_service_remove
  delete_profile_of service m a = elim service.security [
    | none ↦ none
    | some ss ↦
        let profile =
          get_profile_by_ssid_security (utf8_of service.name) (security_0 (map utf8 ss))
            a.profiles.wifi_profile_list in
        elim (delete_profile p profile a.profiles) [
          | none ↦ none
          | some t ↦ some (record {
            manager = some (record m { wifi_services = remove_in service.path m.wifi_services });
            profiles = t;
            calls = removal_calls service.path m a.calls;
          })
        ]
  ]

  -- The service is read again after the properties have been fetched, through the same pointer.
  unfoldable pub delete_profile_if_not_connected :
      Texts
      → (Service → Option (List Property))
      → String
      → Adapter p.Prefs
      → Option (Adapter p.Prefs)
  unfolding update_first_connected connected_path delete_profile_of
  delete_profile_if_not_connected texts fetch path a = elim a.manager [
    | none ↦ some a
    | some m ↦
        let connected = connected_path fetch m.wifi_services in
        let m' = record m { wifi_services = update_first_connected texts fetch m.wifi_services } in
        if is_in path m.wifi_services
        then elim (connman_manager_find_service_by_path m'.wifi_services (some path)) [
          | none ↦ some a
          | some service ↦
              if is_some connected || not (str_eq0 connected (some path))
              then delete_profile_of service m' a
              else some (record a { manager = some m' })
        ]
        else some a
  ]

is_in-update_first_connected :
    (texts : Texts) (fetch : Service → Option (List Property)) (path : String) (ss : List Service)
    → is_in path (update_first_connected texts fetch ss) ≡ is_in path ss
unfolding update_first_connected connman_manager_find_service_by_path
is_in-update_first_connected texts fetch path [] = refl
is_in-update_first_connected texts fetch path (s ∷ ss) = elim (Option-cases (fetch s)) [
  | inl failed ↦ rw failed (ground (arith, is_in-update_first_connected texts fetch path ss))
  | inr (ps, fetched) ↦ rw fetched (
      ground (
        arith,
        is_in-update_first_connected texts fetch path ss,
        update_properties-path texts ps s,
      ))
]

always :
    (connected : Option String) (path : String)
    → is_some connected || not (str_eq0 connected (some path)) ≡ true
always none path = refl
always (some c) path = refl

module _ (p : Platform) (utf8 : String → Bytes) where
  delete_profile_of-calls :
      (service : Service) (m : Manager) (a : Adapter p.Prefs) {b : Adapter p.Prefs}
      → delete_profile_of p utf8 service m a ≡ some b
      → b.calls ≡ removal_calls p utf8 service.path m a.calls
  unfolding delete_profile_of
  delete_profile_of-calls service m a {b} e = ground arith

  -- For a path that is among the wifi services `delete_profile_if_not_connected`, where it reads
  -- nothing through NULL, has the service removed, and the saved profiles if there is a wifi
  -- technology, also where that service is the one that is connected: its condition is always met.
  pub delete_profile_if_not_connected_lem :
      (texts : Texts) (fetch : Service → Option (List Property)) (path : String) (m : Manager)
      (a : Adapter p.Prefs) {b : Adapter p.Prefs}
      → a.manager ≡ some m
      → is_in path m.wifi_services ≡ true
      → delete_profile_if_not_connected p utf8 texts fetch path a ≡ some b
      → b.calls ≡ removal_calls p utf8 path m a.calls
  unfolding delete_profile_if_not_connected connman_manager_find_wifi_technology
  delete_profile_if_not_connected_lem texts fetch path m a {b} e i r =
      let ws = update_first_connected texts fetch m.wifi_services in
      elim (Option-cases (connman_manager_find_service_by_path ws (some path))) [
        | inl missing ↦ absurd (
            ground (
              arith,
              is_in-update_first_connected texts fetch path m.wifi_services,
              ap is_some missing,
            ))
        | inr (service, found) ↦
            let m' : Manager = record m { wifi_services = ws } in
            let done : delete_profile_of p utf8 service m' a ≡ some b =
              ground (arith, r, i, found, e, always (connected_path fetch m.wifi_services) path) in
            let calls = delete_profile_of-calls service m' a done in
            rw (find-path path ws found) at calls
      ]
