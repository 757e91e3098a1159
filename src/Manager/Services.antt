-- ===== src/Manager/Services.antt =====
-- The service lists of src/connman_manager.c under the signals of connman. `none` as a result is
-- the read of a field through NULL.
use webos_connman_adapter.Base.{
  ◌>>=◌, Bool, true, false, ◌&&◌, ◌||◌, List, [], ◌∷◌, ◌++◌, Option, none, some, String, str_eq,
  if◌then◌else◌, is_some,
}
use webos_connman_adapter.Service.Kind.{
  ServiceType, unknown, ethernet, wifi, p2p, cellular, bluetooth,
}
use webos_connman_adapter.Service.State.{
  Service, connman_service_type_wifi, connman_service_type_ethernet, connman_service_type_p2p,
  connman_service_type_wan, connman_service_type_bluetooth,
}
use webos_connman_adapter.Service.Update.{
  Property, ethernet_iface, type, connman_service_new, connman_service_update_properties,
}
use webos_connman_adapter.Manager.State.{
  Manager, ServicesChanged, none_changed, services_change, technologies_change, peers_refreshed,
  ServiceEntry, Env,
}
use webos_connman_adapter.Technology.{Technology, TechnologyProperty, connman_technology_new}
use webos_connman_adapter.Manager.Lookup.{
  connman_manager_find_service_by_path, find_service_from_path, find_technology_by_path,
}

-- The first "Interface" among the members of "Ethernet".
abbrev pub first_interface : List (Option String) → Option String
first_interface [] = none
first_interface (none ∷ ms) = first_interface ms
first_interface (some i ∷ ms) = some i

-- The types that count without a look at the interface.
abbrev pub is_free_type : String → Bool
is_free_type v = str_eq v "Peer" || str_eq v "cellular" || str_eq v "bluetooth"

unfoldable pub add_service_to_list : Service → Bool → Manager → Manager
add_service_to_list s true m = record m { saved_services = m.saved_services ++ s ∷ [] }
add_service_to_list s false m =
    if connman_service_type_wifi (some s)
    then record m { wifi_services = m.wifi_services ++ s ∷ [] }
    else if connman_service_type_ethernet (some s)
    then record m { wired_services = m.wired_services ++ s ∷ [] }
    else if connman_service_type_p2p (some s)
    then record m { p2p_services = m.p2p_services ++ s ∷ [] }
    else if connman_service_type_wan (some s)
    then record m { cellular_services = m.cellular_services ++ s ∷ [] }
    else if connman_service_type_bluetooth (some s)
    then record m { bluetooth_services = m.bluetooth_services ++ s ∷ [] }
    else m

abbrev pub is_in : String → List Service → Bool
is_in path ss = is_some (connman_manager_find_service_by_path ss (some path))

module _ (env : Env) where
  abbrev pub is_configured_iface : String → Bool
  is_configured_iface i = str_eq i env.wifi_interface_name || str_eq i env.wired_interface_name

  unfoldable pub service_on_configured_iface : List Property → Bool
  service_on_configured_iface [] = false
  service_on_configured_iface (ethernet_iface members ∷ qs) =
      let rest = service_on_configured_iface qs in
      elim (first_interface members) [ none ↦ rest | some i ↦ is_configured_iface i ]
  service_on_configured_iface (type v ∷ qs) =
      let rest = service_on_configured_iface qs in if is_free_type v then true else rest
  service_on_configured_iface (_ ∷ qs) = service_on_configured_iface qs

  -- The write of new properties through the pointer to the first service of a path.
  unfoldable pub update_in : String → List Property → List Service → List Service
  update_in path properties [] = []
  update_in path properties (s ∷ ss) =
      let rest = update_in path properties ss in
      if str_eq s.path path
      then connman_service_update_properties env.texts properties s ∷ ss
      else s ∷ rest

  -- The list in which `find_service_from_path` finds the service.
  unfoldable pub update_service : String → List Property → Bool → Manager → Manager
  update_service path properties true m = record m {
    saved_services = update_in path properties m.saved_services;
  }
  update_service path properties false m =
      if is_in path m.wifi_services
      then record m { wifi_services = update_in path properties m.wifi_services }
      else if is_in path m.wired_services
      then record m { wired_services = update_in path properties m.wired_services }
      else if is_in path m.p2p_services
      then record m { p2p_services = update_in path properties m.p2p_services }
      else if is_in path m.bluetooth_services
      then record m { bluetooth_services = update_in path properties m.bluetooth_services }
      else record m { cellular_services = update_in path properties m.cellular_services }

  -- The part of `update_or_add_service` for a new service. Without a D-Bus proxy
  -- `connman_service_new` returns NULL, and `add_service_to_list` reads its path.
  unfoldable pub add_new_service : ServiceEntry → Bool → Manager → Option (Option Service × Manager)
  add_new_service entry saved m =
      let s = connman_service_new env.texts entry.path entry.properties in
      if saved || service_on_configured_iface entry.properties
      then (if env.proxy_made entry.path
          then some (some s, add_service_to_list s saved m)
          else none)
      else some (none, m)

  -- The service is returned as it is after the update.
  unfoldable pub update_or_add_service :
      ServiceEntry → Bool → Manager → Option (Option Service × Manager)
  update_or_add_service entry saved m =
      let path = entry.path in
      elim (find_service_from_path (some m) (some path) saved) [
        | none ↦ add_new_service entry saved m
        | some s ↦ some (
          some (connman_service_update_properties env.texts entry.properties s),
          update_service path entry.properties saved m,
        )
      ]

-- `*service_type |= …` for the type of a service.
unfoldable pub mark_type : ServiceType → ServicesChanged → ServicesChanged
mark_type ethernet f = record f { ethernet = true }
mark_type wifi f = record f { wifi = true }
mark_type p2p f = record f { p2p = true }
mark_type cellular f = record f { cellular = true }
mark_type bluetooth f = record f { bluetooth = true }
mark_type unknown f = f

module _ (env : Env) where
  -- The loop of `connman_manager_update_services`. The flags that saved services would set are
  -- computed too, and not used: there `service_type` is NULL.
  unfoldable pub update_services_from :
      List ServiceEntry
      → Bool
      → Bool × ServicesChanged × Manager
      → Option (Bool × ServicesChanged × Manager)
  update_services_from [] saved acc = some acc
  update_services_from (e ∷ es) saved (considered, flags, m) =
      elim (update_or_add_service env e saved m) [
        | none ↦ none
        | some (none, m') ↦ update_services_from es saved (considered, flags, m')
        | some (some s, m') ↦ update_services_from es saved (true, mark_type s.type flags, m')
      ]

  -- The array may be NULL.
  unfoldable pub connman_manager_update_services :
      Option (List ServiceEntry)
      → Bool
      → ServicesChanged
      → Manager
      → Option (Bool × ServicesChanged × Manager)
  unfolding update_services_from
  connman_manager_update_services none saved flags m = some (false, flags, m)
  connman_manager_update_services (some es) saved flags m =
      update_services_from es saved (false, flags, m)

-- The node of the first service of a path goes.
abbrev pub unlink_path : String → List Service → List Service
unlink_path path [] = []
unlink_path path (s ∷ ss) =
    let rest = unlink_path path ss in if str_eq s.path path then ss else s ∷ rest

-- The first loop of `remove_services_from_list`: the services to remove.
unfoldable pub collect_removed : List Service → List String → List Service
collect_removed ss [] = []
collect_removed ss (path ∷ paths) =
    let rest = collect_removed ss paths in
    elim (connman_manager_find_service_by_path ss (some path)) [ none ↦ rest | some s ↦ s ∷ rest ]

-- The second loop. A service that was collected twice is freed twice: `none`.
unfoldable pub remove_collected : List Service → List Service → Option (List Service)
remove_collected [] ss = some ss
remove_collected (r ∷ rs) ss =
    let rest = remove_collected rs (unlink_path r.path ss) in
    if is_some (connman_manager_find_service_by_path ss (some r.path)) then rest else none

abbrev pub is_cons {ℓ} : {A : Type ℓ} → List A → Bool
is_cons [] = false
is_cons (x ∷ xs) = true

unfoldable pub remove_services_from_list : List Service → List String → Option (Bool × List Service)
unfolding collect_removed remove_collected
remove_services_from_list ss paths =
    let removed = collect_removed ss paths in
    elim (remove_collected removed ss) [ none ↦ none | some ss' ↦ some (is_cons removed, ss') ]

abbrev pub mark : Bool → ServiceType → ServicesChanged → ServicesChanged
mark b t f = if b then mark_type t f else f

-- The peers of all groups are asked for again where a p2p service went.
abbrev pub refresh_peers : Bool → Manager → Manager
refresh_peers b m = if b then record m { notices = peers_refreshed ∷ m.notices } else m

unfoldable pub connman_manager_remove_old_services :
    Option (List String) → ServicesChanged → Manager → Option (Bool × ServicesChanged × Manager)
unfolding remove_services_from_list
connman_manager_remove_old_services none flags m = some (false, flags, m)
connman_manager_remove_old_services (some paths) flags m = do
  (wifi_removed, wifi_services) ← remove_services_from_list m.wifi_services paths
  (wired_removed, wired_services) ← remove_services_from_list m.wired_services paths
  (p2p_removed, p2p_services) ← remove_services_from_list m.p2p_services paths
  (cellular_removed, cellular_services) ← remove_services_from_list m.cellular_services paths
  (bluetooth_removed, bluetooth_services) ← remove_services_from_list m.bluetooth_services paths
  some (
    wifi_removed || wired_removed || p2p_removed || cellular_removed || bluetooth_removed,
    mark bluetooth_removed bluetooth (
        mark cellular_removed cellular
          (mark p2p_removed p2p (mark wifi_removed wifi (mark wired_removed ethernet flags)))),
    refresh_peers p2p_removed (record m {
      wifi_services = wifi_services;
      wired_services = wired_services;
      p2p_services = p2p_services;
      cellular_services = cellular_services;
      bluetooth_services = bluetooth_services;
    }),
  )

module _ (env : Env) where
  -- `connman_update_callbacks` are the vendor's and change nothing here.
  unfoldable pub services_changed_cb :
      Option (List ServiceEntry) → Option (List String) → Manager → Option Manager
  services_changed_cb added removed m = do
    (update_status, flags, m') ← connman_manager_update_services env added false none_changed m
    (remove_status, flags', m'') ← connman_manager_remove_old_services removed flags m'
    some (
        if (update_status || remove_status) && m''.handle_services_change_fn
        then record m'' { notices = services_change flags' ∷ m''.notices }
        else m'')

  -- A NULL array of removed paths is read here, without a test.
  unfoldable pub saved_services_changed_cb :
      Option (List ServiceEntry) → Option (List String) → Manager → Option Manager
  saved_services_changed_cb added none m = none
  saved_services_changed_cb added (some removed) m = do
    (considered, flags, m') ← connman_manager_update_services env added true none_changed m
    (gone, saved_services) ← remove_services_from_list m'.saved_services removed
    some (record m' { saved_services = saved_services })

abbrev tell_technologies : Manager → Manager
tell_technologies m =
    if m.handle_technologies_change_fn
    then record m { notices = technologies_change ∷ m.notices }
    else m

-- `fetch` and `proxy_made` are the remote parts of `connman_technology_new`.
unfoldable pub technology_added_cb :
    (String → Bool) → (Technology → Option (List TechnologyProperty)) → String → Manager → Manager
technology_added_cb proxy_made fetch path m =
    let added : Manager = elim (connman_technology_new proxy_made fetch path) [
      | none ↦ m
      | some t ↦ record m { technologies = m.technologies ++ t ∷ [] }
    ] in
    tell_technologies (if is_some (find_technology_by_path m.technologies path) then m else added)

abbrev pub unlink_technology : String → List Technology → List Technology
unlink_technology path [] = []
unlink_technology path (t ∷ ts) =
    let rest = unlink_technology path ts in if str_eq t.path path then ts else t ∷ rest

unfoldable pub technology_removed_cb : String → Manager → Manager
technology_removed_cb path m =
    tell_technologies (record m { technologies = unlink_technology path m.technologies })
