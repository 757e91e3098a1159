-- ===== src/Wifi/Saved.antt =====
-- Which of the saved networks `populate_wifi_networks` of src/wifi_service.c lists.
use mathlib.Core.List
use mathlib.Core.List.{Perm, Permᴰ}
use mathlib.Core.Logic.{∥∥₁_elim}
use mathlib.Core.Bool.{Bool-set}
use webos_connman_adapter.Base.{
  ◌≡◌, refl, ◌∙◌, Bool, false, ◌&&◌, not, List, [], ◌∷◌, map, keep, Option, none, some, String,
  if◌then◌else◌, Bytes, arith, Option-cases, inl, inr,
}
use webos_connman_adapter.Profile.State.{Profile}
use webos_connman_adapter.Service.Kind.{wifi}
use webos_connman_adapter.Service.State.{Service, same_type}
use webos_connman_adapter.Manager.Services.{is_in}
use webos_connman_adapter.Manager.Lookup.{connman_manager_find_service_by_path}
use webos_connman_adapter.Wifi.Networks.{
  NetworkInfo, add_service, add_services, add_saved_services, add_profiles, info_from_profile,
  find_saved_service_by_profile,
}

is_in-Permᴰ : (path : String) {ss ts : List Service} → Permᴰ ss ts → is_in path ss ≡ is_in path ts
unfolding connman_manager_find_service_by_path
is_in-Permᴰ path Permᴰ.nil = refl
is_in-Permᴰ path (Permᴰ.cons e r) = rw e (ground (arith, is_in-Permᴰ path r))
is_in-Permᴰ path (Permᴰ.swap e f) = rw (e, f) (ground arith)
is_in-Permᴰ path (Permᴰ.trans q r) = is_in-Permᴰ path q ∙ is_in-Permᴰ path r

is_in-Perm : (path : String) {ss ts : List Service} → Perm ss ts → is_in path ss ≡ is_in path ts
is_in-Perm path r = ∥∥₁_elim r (Bool-set _ _) (is_in-Permᴰ path)

module _ (utf8 : String → Bytes) (profiles : List Profile) where
  is_in-add_services :
      (path : String) (ss : List Service)
      → is_in path (add_services utf8 profiles ss).1 ≡ is_in path ss
  unfolding add_services connman_manager_find_service_by_path
  is_in-add_services path [] = refl
  is_in-add_services path (s ∷ ss) = ground (arith, is_in-add_services path ss)

  -- The wifi services stand in another order, and are watched.
  pub is_in-listed :
      (path : String) {ss ts : List Service}
      → Perm ss ts
      → is_in path (add_services utf8 profiles ss).1 ≡ is_in path ts
  is_in-listed path {ss = ss} r = is_in-add_services path ss ∙ is_in-Perm path r

  -- The network of a saved service: a wifi service that has a name and is not in range.
  abbrev pub saved_network : List Service → Service → Option NetworkInfo
  saved_network wifi_services s =
      if same_type s.type wifi && not (is_in s.path wifi_services)
      then (add_service utf8 profiles false s).0
      else none

  pub add_saved_services-filter_map :
      (wifi_services present ss : List Service)
      → ((path : String) → is_in path wifi_services ≡ is_in path present)
      → (add_saved_services utf8 profiles wifi_services ss).0
        ≡ List.filter_map (saved_network present) ss
  unfolding add_saved_services List.filter_map
  add_saved_services-filter_map wifi_services present [] same = refl
  add_saved_services-filter_map wifi_services present (s ∷ ss) same =
      ground (arith, add_saved_services-filter_map wifi_services present ss same, same s.path)

  find_saved-watched :
      (q : Profile) (wifi_services ss : List Service)
      → find_saved_service_by_profile utf8 profiles q
          (add_saved_services utf8 profiles wifi_services ss).1
        ≡ find_saved_service_by_profile utf8 profiles q ss
  unfolding find_saved_service_by_profile add_saved_services
  find_saved-watched q wifi_services [] = refl
  find_saved-watched q wifi_services (s ∷ ss) =
      ground (arith, find_saved-watched q wifi_services ss)

  -- A configured profile that no saved service is for.
  abbrev pub is_unsaved : List Service → Profile → Bool
  is_unsaved saved q =
      q.configured && (elim (find_saved_service_by_profile utf8 profiles q saved) as (λ o. Bool) [
        | none ↦ false
        | some b ↦ not b
      ])

  pub add_profiles-keep :
      (wifi_services saved : List Service) (qs : List Profile) {ps : List NetworkInfo}
      → add_profiles utf8 profiles (add_saved_services utf8 profiles wifi_services saved).1 qs
        ≡ some ps
      → ps ≡ map (info_from_profile utf8 profiles) (keep (is_unsaved saved) qs)
  unfolding add_profiles
  add_profiles-keep wifi_services saved [] e = ground (arith, e)
  add_profiles-keep wifi_services saved (q ∷ qs) {ps} e =
      let known = find_saved-watched q wifi_services saved in
      elim (Option-cases
        (add_profiles utf8 profiles (add_saved_services utf8 profiles wifi_services saved).1 qs)) [
          | inl f ↦ ground (arith, e, known, f)
          | inr (rest, f) ↦ ground (arith, e, known, f, add_profiles-keep wifi_services saved qs f)
        ]
