-- ===== src/Wifi/RemovalTotal.antt =====
-- When `delete_profile_if_not_connected` of src/wifi_service.c reads nothing through NULL.
use webos_connman_adapter.Base.{
  ◌≡◌, refl, inl, inr, Bool, true, List, [], ◌∷◌, map, Option, none, some, String, is_some, Bytes,
  All, Option-cases, arith,
}
use webos_connman_adapter.Platform.{Platform}
use webos_connman_adapter.Profile.State.{
  Profile, State, find_profile, security_0, get_profile_by_ssid_security,
}
use webos_connman_adapter.Profile.Ops.{delete_profile, remove_config_of}
use webos_connman_adapter.Profile.Deletion.{HasSecurity}
use webos_connman_adapter.Service.State.{
  Service, connman_service_advance_state, connman_service_advance_online_state,
}
use webos_connman_adapter.Service.Update.{
  Texts, Property, update_property, connman_service_update_properties,
}
use webos_connman_adapter.Manager.State.{Manager}
use webos_connman_adapter.Manager.Lookup.{connman_manager_find_service_by_path}
use webos_connman_adapter.Manager.Connected.{update_first_connected}
use webos_connman_adapter.Wifi.Removal.{
  Adapter, delete_profile_of, utf8_of, delete_profile_if_not_connected,
}

abbrev pub HasTypeList : Service → Type 0
HasTypeList s = is_some s.security ≡ true

update_property-HasTypeList :
    (texts : Texts) (q : Property) (s : Service)
    → HasTypeList s
    → HasTypeList (update_property texts q s)
unfolding update_property connman_service_advance_state connman_service_advance_online_state
update_property-HasTypeList texts (Property.state v) s h = ground arith
update_property-HasTypeList texts (Property.online b) s h = ground arith
update_property-HasTypeList texts _ s h = ground arith

update_properties-HasTypeList :
    (texts : Texts) (qs : List Property) (s : Service)
    → HasTypeList s
    → HasTypeList (connman_service_update_properties texts qs s)
unfolding connman_service_update_properties
update_properties-HasTypeList texts [] s h = h
update_properties-HasTypeList texts (q ∷ qs) s h =
    update_properties-HasTypeList texts qs (update_property texts q s)
      (update_property-HasTypeList texts q s h)

update_first_connected-HasTypeList :
    (texts : Texts) (fetch : Service → Option (List Property)) (ss : List Service)
    → All HasTypeList ss
    → All HasTypeList (update_first_connected texts fetch ss)
unfolding update_first_connected
update_first_connected-HasTypeList texts fetch [] a = tt
update_first_connected-HasTypeList texts fetch (s ∷ ss) a = elim (Option-cases (fetch s)) [
  | inl failed ↦
      rw failed (ground (arith, update_first_connected-HasTypeList texts fetch ss a.1, a))
  | inr (ps, fetched) ↦ rw fetched (
      ground (
        arith,
        a,
        update_first_connected-HasTypeList texts fetch ss a.1,
        update_properties-HasTypeList texts ps s a.0,
      ))
]

find-HasTypeList :
    (path : String) (ss : List Service) {s : Service}
    → All HasTypeList ss
    → connman_manager_find_service_by_path ss (some path) ≡ some s
    → HasTypeList s
unfolding connman_manager_find_service_by_path
find-HasTypeList path [] a e = cc
find-HasTypeList path (x ∷ ss) {s} a e =
    ground (arith, find-HasTypeList path ss {s = s} a.1, a.0, e)

find_profile-HasSecurity :
    (test : Profile → Bool) (qs : List Profile) {q : Profile}
    → All HasSecurity qs
    → find_profile test qs ≡ some q
    → HasSecurity q
find_profile-HasSecurity test [] a e = cc
find_profile-HasSecurity test (x ∷ xs) {q} a e =
    ground (arith, find_profile-HasSecurity test xs {q = q} a.1, a.0, e)

get_profile-HasSecurity :
    (ssid security : Option Bytes) (qs : List Profile) {q : Profile}
    → All HasSecurity qs
    → get_profile_by_ssid_security ssid security qs ≡ some q
    → HasSecurity q
unfolding get_profile_by_ssid_security
get_profile-HasSecurity none security qs a e = cc
get_profile-HasSecurity (some ssid) security qs a e = find_profile-HasSecurity _ qs a e

module _ (p : Platform) (utf8 : String → Bytes) where
  delete_profile-some :
      (o : Option Profile) (s : State p.Prefs)
      → ((q : Profile) → o ≡ some q → HasSecurity q)
      → is_some (delete_profile p o s) ≡ true
  unfolding delete_profile remove_config_of
  delete_profile-some none s h = refl
  delete_profile-some (some q) s h = ground (arith, h q refl)

  delete_profile_of-some :
      (service : Service) (m : Manager) (a : Adapter p.Prefs)
      → HasTypeList service
      → All HasSecurity a.profiles.wifi_profile_list
      → is_some (delete_profile_of p utf8 service m a) ≡ true
  unfolding delete_profile_of
  delete_profile_of-some service m a t h = elim (Option-cases service.security) [
    | inl missing ↦ absurd (ground arith)
    | inr (ss, there) ↦
        rw (there, delete_profile_of)
          (ground (
            arith,
            delete_profile-some
                (get_profile_by_ssid_security (utf8_of p utf8 service.name)
                  (security_0 (map utf8 ss)) a.profiles.wifi_profile_list)
                a.profiles (λ q e. get_profile-HasSecurity _ _ a.profiles.wifi_profile_list h e),
          ))
  ]

  -- Where every wifi service has a list of security types, and every configured profile too,
  -- `delete_profile_if_not_connected` reads nothing through NULL and returns.
  pub delete_profile_if_not_connected-some :
      (texts : Texts) (fetch : Service → Option (List Property)) (path : String) (m : Manager)
      (a : Adapter p.Prefs)
      → a.manager ≡ some m
      → All HasTypeList m.wifi_services
      → All HasSecurity a.profiles.wifi_profile_list
      → is_some (delete_profile_if_not_connected p utf8 texts fetch path a) ≡ true
  unfolding delete_profile_if_not_connected
  delete_profile_if_not_connected-some texts fetch path m a e t h =
      let ws = update_first_connected texts fetch m.wifi_services in
      let m' : Manager = record m { wifi_services = ws } in
      elim (Option-cases (connman_manager_find_service_by_path ws (some path))) [
        | inl missing ↦ ground (arith, e, missing)
        | inr (service, found) ↦
            let listed =
              find-HasTypeList path ws
                (update_first_connected-HasTypeList texts fetch m.wifi_services t) found in
            ground (arith, e, found, delete_profile_of-some service m' a listed h)
      ]
