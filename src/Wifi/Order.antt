-- ===== src/Wifi/Order.antt =====
-- What `populate_wifi_networks` lists, and in which order.
use mathlib.Core.List
use mathlib.Core.List.{Perm, append-nil}
use mathlib.Core.List.Perm
use webos_connman_adapter.Base.{
  ℕ, ◌≤◌, ◌≡◌, refl, sym, ap, subst, ◌⊎◌, inl, inr, Bool, true, false, List, [], ◌∷◌, ◌++◌, map,
  keep, Option, none, some, String, is_some, Bytes, All, All-append, Bool-cases, Option-cases,
  arith,
}
use webos_connman_adapter.Profile.State.{Profile, profiles_in_order}
use webos_connman_adapter.Service.Info.{ℤ}
use webos_connman_adapter.Service.State.{Service}
use webos_connman_adapter.Manager.State.{Manager}
use webos_connman_adapter.Wifi.Signal.{
  compare_signal_strength, is_not_after, goes_first, compare_signal_strength_lem,
}
use webos_connman_adapter.Wifi.Saved.{
  saved_network, is_unsaved, is_in-listed, add_saved_services-filter_map, add_profiles-keep,
}
use webos_connman_adapter.Wifi.Networks.{
  NetworkInfo, info_from_profile, info_of, add_service, add_services, add_saved_services,
  add_profiles, populate_wifi_networks,
}

-- Every element may stand before all that come after it.
abbrev pub IsSorted : (Service → Service → ℤ) → List Service → Type 0
IsSorted compare [] = Unit
IsSorted compare (s ∷ ss) = All (λ t. is_not_after (compare s t) ≡ true) ss × IsSorted compare ss

-- What GLib says of `g_slist_sort`, for a comparison that is total and transitive.
abbrev pub IsSort : ((Service → Service → ℤ) → List Service → List Service) → Type 0
IsSort sort =
    (compare : Service → Service → ℤ)
    → ((s t : Service) → (is_not_after (compare s t) ≡ true) ⊎ (is_not_after (compare t s) ≡ true))
    → ((s t u : Service)
        → is_not_after (compare s t) ≡ true
        → is_not_after (compare t u) ≡ true
        → is_not_after (compare s u) ≡ true)
    → (ss : List Service) → Perm (sort compare ss) ss × IsSorted compare (sort compare ss)

abbrev pub level : NetworkInfo → ℕ
level i = elim i.signal_level [ none ↦ 0 | some n ↦ n ]

abbrev pub IsDescending : List NetworkInfo → Type 0
IsDescending [] = Unit
IsDescending (i ∷ is) = All (λ j. level j ≤ level i) is × IsDescending is

-- Of a list that is there.
abbrev AllSome {ℓ} : {A : Type 0} → (A → Type ℓ) → Option (List A) → Type ℓ
AllSome P none = Unit
AllSome P (some xs) = All P xs

module _ (utf8 : String → Bytes) (profiles : List Profile) where
  -- The network of a service in range, if it has a name.
  abbrev pub network_in_range : Service → Option NetworkInfo
  network_in_range s = (add_service utf8 profiles true s).0

  add_services-filter_map :
      (ss : List Service) → (add_services utf8 profiles ss).0 ≡ List.filter_map network_in_range ss
  unfolding add_services List.filter_map
  add_services-filter_map [] = refl
  add_services-filter_map (s ∷ ss) = ground (arith, add_services-filter_map ss)

  add_services-available :
      (ss : List Service) → All (λ i. i.available ≡ true) (add_services utf8 profiles ss).0
  unfolding add_services
  add_services-available [] = tt
  add_services-available (s ∷ ss) = ground (arith, add_services-available ss)

  add_services-level :
      (s : Service) (ss : List Service)
      → is_some s.name ≡ true
      → All (λ t. goes_first s t ≡ true) ss
      → All (λ j. level j ≤ s.strength) (add_services utf8 profiles ss).0
  unfolding add_services
  add_services-level s [] n a = tt
  add_services-level s (t ∷ ts) n a =
      ground (arith, add_services-level s ts n a.1, (compare_signal_strength_lem s t t).0.0 a.0)

  level-info_of :
      (name : String) (s : Service) → level (info_of utf8 profiles true name s) ≡ s.strength
  level-info_of name s = ground arith

  add_services-IsDescending :
      (ss : List Service)
      → IsSorted compare_signal_strength ss
      → IsDescending (add_services utf8 profiles ss).0
  unfolding add_services
  add_services-IsDescending [] a = tt
  add_services-IsDescending (s ∷ ss) a = elim (Option-cases s.name) [
    | inl hidden ↦ rw hidden (add_services-IsDescending ss a.1)
    | inr (name, named) ↦ rw named (
      subst (λ n. All (λ j. level j ≤ n) (add_services utf8 profiles ss).0)
          (sym (level-info_of name s)) (add_services-level s ss (ap is_some named) a.0),
      add_services-IsDescending ss a.1,
    )
  ]

  add_saved_services-unavailable :
      (wifi_services ss : List Service)
      → All (λ i. i.available ≡ false) (add_saved_services utf8 profiles wifi_services ss).0
  unfolding add_saved_services
  add_saved_services-unavailable wifi_services [] = tt
  add_saved_services-unavailable wifi_services (s ∷ ss) =
      ground (arith, add_saved_services-unavailable wifi_services ss)

  add_profiles-unavailable :
      (saved : List Service) (qs : List Profile)
      → AllSome (λ i. i.available ≡ false) (add_profiles utf8 profiles saved qs)
  unfolding add_profiles
  add_profiles-unavailable saved [] = tt
  add_profiles-unavailable saved (q ∷ qs) = ground (arith, add_profiles-unavailable saved qs)

-- The networks out of range: of the saved wifi services that have a name and are not among the wifi
-- services, in their order, then of the configured profiles that no saved service is for.
abbrev pub out_of_range : (String → Bytes) → List Profile → Bool → Manager → List NetworkInfo
out_of_range utf8 profiles false m = []
out_of_range utf8 profiles true m =
    List.filter_map (saved_network utf8 profiles m.wifi_services) m.saved_services
    ++ map (info_from_profile utf8 profiles)
        (keep (is_unsaved utf8 profiles m.saved_services) (profiles_in_order profiles))

-- The list of networks, with the sort as GLib documents it: first those of the wifi services that
-- have a name, each once, available and by descending signal level; then, if saved networks are
-- shown, those of the saved wifi services that have a name and are not among the wifi services, in
-- their order, and those of the configured profiles that no saved service is for. These are not
-- available.
pub populate_wifi_networks_lem :
    (utf8 : String → Bytes) (profiles : List Profile)
    (sort : (Service → Service → ℤ) → List Service → List Service) (show_saved_nw : Bool)
    (m : Manager) {infos : List NetworkInfo} {m' : Manager}
    → IsSort sort
    → populate_wifi_networks utf8 profiles sort show_saved_nw m ≡ some (infos, m')
    → (near : List NetworkInfo) × (infos ≡ near ++ out_of_range utf8 profiles show_saved_nw m)
      × Perm near (List.filter_map (network_in_range utf8 profiles) m.wifi_services)
      × IsDescending near
      × All (λ i. i.available ≡ true) near
      × All (λ i. i.available ≡ false) (out_of_range utf8 profiles show_saved_nw m)
unfolding populate_wifi_networks
populate_wifi_networks_lem utf8 profiles sort show m {infos} {m'} d e =
    let (perm, sorted) =
      d compare_signal_strength (λ s t. (compare_signal_strength_lem s t s).1)
        (λ s t u. (compare_signal_strength_lem s t u).2) m.wifi_services in
    let ss = sort compare_signal_strength m.wifi_services in
    let (near, wifi_services) = add_services utf8 profiles ss in
    let (saved, saved_services) = add_saved_services utf8 profiles wifi_services m.saved_services in
    let near_perm =
      subst (λ ns. Perm ns (List.filter_map (network_in_range utf8 profiles) m.wifi_services))
        (sym (add_services-filter_map utf8 profiles ss))
        (Perm.filter_map (network_in_range utf8 profiles) perm) in
    let falling = add_services-IsDescending utf8 profiles ss sorted in
    let there = add_services-available utf8 profiles ss in
    let far =
      add_saved_services-filter_map utf8 profiles wifi_services m.wifi_services m.saved_services
        (λ path. is_in-listed utf8 profiles path perm) in
    let away = add_saved_services-unavailable utf8 profiles wifi_services m.saved_services in
    let from_profiles = add_profiles utf8 profiles saved_services (profiles_in_order profiles) in
    let unlisted =
      add_profiles-unavailable utf8 profiles saved_services (profiles_in_order profiles) in
    elim (Bool-cases show) [
      | inl saved_too ↦ elim (Option-cases from_profiles) [
        | inl fault ↦ absurd (ground arith)
        | inr (ps, listed) ↦
            let known =
              add_profiles-keep utf8 profiles wifi_services m.saved_services
                (profiles_in_order profiles) listed in
            (
              near,
              rw (saved_too, ← far, ← known) (ground (arith, saved_too, listed, e)),
              near_perm,
              falling,
              there,
              rw (saved_too, ← far, ← known)
                  (All-append (λ i. i.available ≡ false) saved ps away (rw listed at unlisted)),
            )
      ]
      | inr near_only ↦ (
        near,
        rw near_only (ground (arith, append-nil near)),
        near_perm,
        falling,
        there,
        rw near_only tt,
      )
    ]
