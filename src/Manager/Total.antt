-- ===== src/Manager/Total.antt =====
-- When the signal "services_changed" is handled without a read through NULL or a second free.
use webos_connman_adapter.Base.{
  ◌≡◌, refl, ap, ◌∙◌, inl, inr, Bool, true, false, List, [], ◌∷◌, Option, none, some, String,
  str_eq, str_eq_iff, is_some, All, Option-cases, arith,
}
use webos_connman_adapter.Service.State.{Service}
use webos_connman_adapter.Manager.State.{Manager, ServicesChanged, none_changed, Env, ServiceEntry}
use webos_connman_adapter.Manager.Lookup.{connman_manager_find_service_by_path}
use webos_connman_adapter.Manager.Services.{
  is_in, unlink_path, collect_removed, remove_collected, remove_services_from_list,
  connman_manager_remove_old_services, add_new_service, update_or_add_service, mark_type,
  update_services_from, connman_manager_update_services, services_changed_cb,
}
use webos_connman_adapter.Manager.Counts.{find-path}
use webos_connman_adapter.Manager.Removal.{is_removed}

-- No path occurs twice.
abbrev pub HasNoDuplicates : List String → Type 0
HasNoDuplicates [] = Unit
HasNoDuplicates (p ∷ ps) = (is_removed p ps ≡ false) × HasNoDuplicates ps

abbrev HasOtherPaths : String → List Service → Type 0
HasOtherPaths path ss = All (λ s. str_eq s.path path ≡ false) ss

abbrev HasNoDuplicatePaths : List Service → Type 0
HasNoDuplicatePaths [] = Unit
HasNoDuplicatePaths (s ∷ ss) = HasOtherPaths s.path ss × HasNoDuplicatePaths ss

is_in-unlink_path :
    (path q : String) (ss : List Service)
    → str_eq q path ≡ false
    → is_in q (unlink_path path ss) ≡ is_in q ss
unfolding connman_manager_find_service_by_path
is_in-unlink_path path q [] h = refl
is_in-unlink_path path q (s ∷ ss) h = ground (
  arith,
  is_in-unlink_path path q ss,
  str_eq_iff s.path path,
  str_eq_iff s.path q,
  str_eq_iff q path,
)

still_in :
    (path : String) (rs ss : List Service)
    → HasOtherPaths path rs
    → All (λ r. is_in r.path ss ≡ true) rs
    → All (λ r. is_in r.path (unlink_path path ss) ≡ true) rs
still_in path [] ss o a = tt
still_in path (r ∷ rs) ss o a =
    (is_in-unlink_path path r.path ss o.0 ∙ a.0, still_in path rs ss o.1 a.1)

remove_collected-some :
    (rs ss : List Service)
    → HasNoDuplicatePaths rs
    → All (λ r. is_in r.path ss ≡ true) rs
    → is_some (remove_collected rs ss) ≡ true
unfolding remove_collected
remove_collected-some [] ss d a = refl
remove_collected-some (r ∷ rs) ss d a = ground (
  arith,
  a.0,
  remove_collected-some rs (unlink_path r.path ss) d.1 (still_in r.path rs ss d.0 a.1),
)

collect_removed-in :
    (ss : List Service) (paths : List String)
    → All (λ r. is_in r.path ss ≡ true) (collect_removed ss paths)
unfolding collect_removed
collect_removed-in ss [] = tt
collect_removed-in ss (p ∷ ps) =
    elim (Option-cases (connman_manager_find_service_by_path ss (some p))) [
      | inl missing ↦ rw (missing, collect_removed) (collect_removed-in ss ps)
      | inr (s, found) ↦
          rw (found, collect_removed)
            (
              ap (λ x. is_in x ss) (find-path p ss found) ∙ ap is_some found,
              collect_removed-in ss ps,
            )
    ]

collect_removed-other :
    (q : String) (ss : List Service) (paths : List String)
    → is_removed q paths ≡ false
    → HasOtherPaths q (collect_removed ss paths)
unfolding collect_removed
collect_removed-other q ss [] h = tt
collect_removed-other q ss (p ∷ ps) h =
    elim (Option-cases (connman_manager_find_service_by_path ss (some p))) [
      | inl missing ↦ rw (missing, collect_removed) (collect_removed-other q ss ps (ground arith))
      | inr (s, found) ↦
          rw (found, collect_removed)
            (ground (arith, find-path p ss found, h), collect_removed-other q ss ps (ground arith))
    ]

collect_removed-HasNoDuplicatePaths :
    (ss : List Service) (paths : List String)
    → HasNoDuplicates paths
    → HasNoDuplicatePaths (collect_removed ss paths)
unfolding collect_removed
collect_removed-HasNoDuplicatePaths ss [] d = tt
collect_removed-HasNoDuplicatePaths ss (p ∷ ps) d =
    elim (Option-cases (connman_manager_find_service_by_path ss (some p))) [
      | inl missing ↦ rw (missing, collect_removed) (collect_removed-HasNoDuplicatePaths ss ps d.1)
      | inr (s, found) ↦
          rw (found, collect_removed)
            (
              rw (find-path p ss found) (collect_removed-other p ss ps d.0),
              collect_removed-HasNoDuplicatePaths ss ps d.1,
            )
    ]

remove_services_from_list-some :
    (ss : List Service) (paths : List String)
    → HasNoDuplicates paths
    → is_some (remove_services_from_list ss paths) ≡ true
unfolding remove_services_from_list
remove_services_from_list-some ss paths d = ground (
  arith,
  remove_collected-some (collect_removed ss paths) ss
      (collect_removed-HasNoDuplicatePaths ss paths d) (collect_removed-in ss paths),
)

remove_old_services-some :
    (paths : List String) (f : ServicesChanged) (m : Manager)
    → HasNoDuplicates paths
    → is_some (connman_manager_remove_old_services (some paths) f m) ≡ true
unfolding connman_manager_remove_old_services
remove_old_services-some paths f m d = ground (
  arith,
  remove_services_from_list-some m.wifi_services paths d,
  remove_services_from_list-some m.wired_services paths d,
  remove_services_from_list-some m.p2p_services paths d,
  remove_services_from_list-some m.cellular_services paths d,
  remove_services_from_list-some m.bluetooth_services paths d,
)

module _ (env : Env) where
  -- The D-Bus proxy of each service of the message can be made.
  abbrev pub HasProxies : List ServiceEntry → Type 0
  HasProxies = All (λ e. env.proxy_made e.path ≡ true)

  update_or_add_service-some :
      (e : ServiceEntry) (m : Manager)
      → env.proxy_made e.path ≡ true
      → is_some (update_or_add_service env e false m) ≡ true
  unfolding update_or_add_service add_new_service
  update_or_add_service-some e m h = ground arith

  update_services_from-some :
      (es : List ServiceEntry) (c : Bool) (f : ServicesChanged) (m : Manager)
      → HasProxies es
      → is_some (update_services_from env es false (c, f, m)) ≡ true
  unfolding update_services_from
  update_services_from-some [] c f m h = refl
  update_services_from-some (x ∷ es) c f m h =
      go (update_or_add_service env x false m) refl
        (λ d g n. update_services_from-some es d g n h.1)
    where
      go :
          (o : Option (Option Service × Manager))
          → update_or_add_service env x false m ≡ o
          → ((d : Bool) (g : ServicesChanged) (n : Manager)
              → is_some (update_services_from env es false (d, g, n)) ≡ true)
          → is_some (update_services_from env (x ∷ es) false (c, f, m)) ≡ true
      go none u ih = absurd (ground (arith, u, update_or_add_service-some x m h.0))
      go (some (none, n)) u ih = rw (u, update_services_from) (ih c f n)
      go (some (some s, n)) u ih = rw (u, update_services_from) (ih true (mark_type s.type f) n)

  -- The signal "services_changed" is handled to the end where the D-Bus proxy of each service in it
  -- can be made and no path is to be removed twice.
  pub services_changed_cb-some :
      (added : List ServiceEntry) (removed : List String) (m : Manager)
      → HasProxies added
      → HasNoDuplicates removed
      → is_some (services_changed_cb env (some added) (some removed) m) ≡ true
  unfolding services_changed_cb connman_manager_update_services
  services_changed_cb-some added removed m h d =
      let told = update_services_from-some added false none_changed m h in
      elim (Option-cases (update_services_from env added false (false, none_changed, m))) [
        | inl fault ↦ absurd (ground (arith, told, fault))
        | inr ((considered, flags, m1), e) ↦
            rw (e, services_changed_cb)
              (ground (arith, remove_old_services-some removed flags m1 d))
      ]
