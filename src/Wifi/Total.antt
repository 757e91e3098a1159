-- ===== src/Wifi/Total.antt =====
-- When the network list of src/wifi_service.c can be made without a read through NULL.
use webos_connman_adapter.Base.{
  ◌≡◌, refl, sym, subst, Bool, true, false, List, [], ◌∷◌, ◌++◌, some, String, is_some, Bytes, All,
  Option-cases, inl, inr, arith,
}
use webos_connman_adapter.Profile.State.{Profile, profiles_in_order}
use webos_connman_adapter.Profile.Distinct.{Distinct, address_of, profiles_in_order_lem}
use webos_connman_adapter.Profile.Deletion.{HasSecurity}
use webos_connman_adapter.Service.Info.{ℤ}
use webos_connman_adapter.Service.State.{Service}
use webos_connman_adapter.Manager.State.{Manager, ServicesChanged}
use webos_connman_adapter.Wifi.Signal.{compare_signal_strength}
use webos_connman_adapter.Wifi.Networks.{
  NetworkInfo, add_services, add_saved_services, add_profiles, find_saved_service_by_profile,
  populate_wifi_networks,
}
use webos_connman_adapter.Wifi.Updates.{Listing, tell_networks, manager_services_changed_callback}

-- A service with a name has a list of security types.
abbrev pub HasTypes : Service → Type 0
HasTypes s = is_some s.name ≡ true → is_some s.security ≡ true

module _ (utf8 : String → Bytes) (profiles : List Profile) where
  add_saved_services-HasTypes :
      (ws ss : List Service)
      → All HasTypes ss
      → All HasTypes (add_saved_services utf8 profiles ws ss).1
  unfolding add_saved_services
  add_saved_services-HasTypes ws [] a = tt
  add_saved_services-HasTypes ws (s ∷ ss) a =
      ground (arith, add_saved_services-HasTypes ws ss a.1, a.0)

  find_saved_service-some :
      (q : Profile) (ss : List Service)
      → is_some q.security ≡ true
      → All HasTypes ss
      → is_some (find_saved_service_by_profile utf8 profiles q ss) ≡ true
  unfolding find_saved_service_by_profile
  find_saved_service-some q [] h a = refl
  find_saved_service-some q (s ∷ ss) h a = ground (arith, find_saved_service-some q ss h a.1, a.0)

  add_profiles-some :
      (saved : List Service) (qs : List Profile)
      → All HasTypes saved
      → All HasSecurity qs
      → is_some (add_profiles utf8 profiles saved qs) ≡ true
  unfolding add_profiles
  add_profiles-some saved [] a b = refl
  add_profiles-some saved (q ∷ qs) a b =
      ground (arith, add_profiles-some saved qs a b.1, find_saved_service-some q saved, b.0)

-- The profile list is as the invariant of src/wifi_profile.c has it, and each configured profile
-- has a list of security types.
abbrev pub IsListable : List Profile → Type 0
IsListable profiles = Distinct address_of profiles × All HasSecurity profiles

module _ (utf8 : String → Bytes) (profiles : List Profile)
    (sort : (Service → Service → ℤ) → List Service → List Service) where
  populate-some :
      (show : Bool) (m : Manager)
      → IsListable profiles
      → All HasTypes m.saved_services
      → (infos : List NetworkInfo) × (m' : Manager) × (populate_wifi_networks utf8 profiles sort
            show m
          ≡ some (infos, m'))
        × All HasTypes m'.saved_services
  unfolding populate_wifi_networks
  populate-some false m d a = (_, _, refl, a)
  populate-some true m d a =
      let (near, ws) = add_services utf8 profiles (sort compare_signal_strength m.wifi_services) in
      let (far, saved) = add_saved_services utf8 profiles ws m.saved_services in
      let kept = add_saved_services-HasTypes utf8 profiles ws m.saved_services a in
      let secure = subst (All HasSecurity) (sym (profiles_in_order_lem profiles d.0)) d.1 in
      let listed = add_profiles-some utf8 profiles saved (profiles_in_order profiles) kept secure in
      elim (Option-cases (add_profiles utf8 profiles saved (profiles_in_order profiles))) [
        | inl fault ↦ absurd (ground arith)
        | inr (ps, e) ↦ (
          near ++ (far ++ ps),
          record m { wifi_services = ws; saved_services = saved },
          rw (e, populate_wifi_networks) refl,
          kept,
        )
      ]

  tell_networks-some :
      (l : Listing)
      → IsListable profiles
      → All HasTypes l.manager.saved_services
      → is_some (tell_networks utf8 profiles sort l) ≡ true
  unfolding tell_networks
  tell_networks-some l d a =
      let (infos1, m1, e1, a1) = populate-some false l.manager d a in
      let (infos2, m2, e2, a2) = populate-some true m1 d a1 in
      rw (e1, tell_networks) (rw (e2, tell_networks) refl)

  -- If every saved service with a name and every configured profile has a list of security types,
  -- and profiles have distinct pointers, the callback for changed services reads nothing through
  -- NULL and returns.
  pub manager_services_changed_callback-total :
      (flags : ServicesChanged) (l : Listing)
      → IsListable profiles
      → All HasTypes l.manager.saved_services
      → is_some (manager_services_changed_callback utf8 profiles sort flags l) ≡ true
  unfolding manager_services_changed_callback
  manager_services_changed_callback-total flags l d a = ground (arith, tell_networks-some l d a)
