-- ===== src/Manager/Lookup.antt =====
-- The lookups of src/connman_manager.c.
use webos_connman_adapter.Base.{
  Bool, true, false, ◌||◌, not, List, [], ◌∷◌, Option, none, some, String, str_eq, str_eq0,
  if◌then◌else◌, is_some,
}
use webos_connman_adapter.Service.Kind.{
  connman_service_get_state, is_online_state, is_ready_state, is_configuration_state,
  is_association_state,
}
use webos_connman_adapter.Service.State.{Service}
use webos_connman_adapter.Service.Update.{Texts, Property, connman_service_update_properties}
use webos_connman_adapter.Manager.State.{Manager}
use webos_connman_adapter.Technology.{Technology}

-- `connman_manager_find_service_by_path`. Services here have a path.
unfoldable pub connman_manager_find_service_by_path : List Service → Option String → Option Service
connman_manager_find_service_by_path ss none = none
connman_manager_find_service_by_path [] (some path) = none
connman_manager_find_service_by_path (s ∷ ss) (some path) =
    let rest = connman_manager_find_service_by_path ss (some path) in
    if str_eq s.path path then some s else rest

-- The manager and the path may be NULL; `saved` asks for the list of saved services.
unfoldable pub find_service_from_path : Option Manager → Option String → Bool → Option Service
unfolding connman_manager_find_service_by_path
find_service_from_path none path saved = none
find_service_from_path (some m) none saved = none
find_service_from_path (some m) (some path) true =
    connman_manager_find_service_by_path m.saved_services (some path)
find_service_from_path (some m) (some path) false =
    let in_wifi = connman_manager_find_service_by_path m.wifi_services (some path) in
    let in_wired = connman_manager_find_service_by_path m.wired_services (some path) in
    let in_p2p = connman_manager_find_service_by_path m.p2p_services (some path) in
    let in_bluetooth = connman_manager_find_service_by_path m.bluetooth_services (some path) in
    if is_some in_wifi
    then in_wifi
    else if is_some in_wired
    then in_wired
    else if is_some in_p2p
    then in_p2p
    else if is_some in_bluetooth
    then in_bluetooth
    else connman_manager_find_service_by_path m.cellular_services (some path)

unfoldable pub find_technology_by_path : List Technology → String → Option Technology
find_technology_by_path [] path = none
find_technology_by_path (t ∷ ts) path =
    let rest = find_technology_by_path ts path in if str_eq t.path path then some t else rest

-- The loop of `connman_manager_find_technology_by_name`, and of the four functions for a fixed name.
unfoldable pub find_technology : Option String → List Technology → Option Technology
find_technology name [] = none
find_technology name (t ∷ ts) =
    let rest = find_technology name ts in if str_eq0 name t.type then some t else rest

unfoldable pub connman_manager_find_technology_by_name :
    Option Manager → Option String → Option Technology
unfolding find_technology
connman_manager_find_technology_by_name none name = none
connman_manager_find_technology_by_name (some m) name = find_technology name m.technologies

unfoldable pub connman_manager_find_wifi_technology : Option Manager → Option Technology
unfolding find_technology
connman_manager_find_wifi_technology none = none
connman_manager_find_wifi_technology (some m) = find_technology (some "wifi") m.technologies

unfoldable pub connman_manager_find_ethernet_technology : Option Manager → Option Technology
unfolding find_technology
connman_manager_find_ethernet_technology none = none
connman_manager_find_ethernet_technology (some m) = find_technology (some "ethernet") m.technologies

unfoldable pub connman_manager_find_cellular_technology : Option Manager → Option Technology
unfolding find_technology
connman_manager_find_cellular_technology none = none
connman_manager_find_cellular_technology (some m) = find_technology (some "cellular") m.technologies

unfoldable pub connman_manager_find_bluetooth_technology : Option Manager → Option Technology
unfolding find_technology
connman_manager_find_bluetooth_technology none = none
connman_manager_find_bluetooth_technology (some m) =
    find_technology (some "bluetooth") m.technologies

-- The loop of `connman_manager_get_connected_service`.
abbrev pub counts_as_connected : Service → Bool
counts_as_connected s =
    let state = connman_service_get_state s.state in
    is_online_state state || is_ready_state state || is_configuration_state state

unfoldable pub first_connected : List Service → Option Service
first_connected [] = none
first_connected (s ∷ ss) =
    let rest = first_connected ss in if counts_as_connected s then some s else rest

-- `fetch` is `connman_service_fetch_properties`, NULL if the remote call fails. The result is the
-- service with the fetched properties, which the C code writes into the service itself.
unfoldable pub connman_manager_get_connected_service :
    Texts → (Service → Option (List Property)) → List Service → Option Service
unfolding first_connected
connman_manager_get_connected_service texts fetch ss = elim (first_connected ss) [
  | none ↦ none
  | some s ↦ elim (fetch s) [
    | none ↦ none
    | some properties ↦ some (connman_service_update_properties texts properties s)
  ]
]

unfoldable pub connman_manager_get_connecting_service : List Service → Option Service
connman_manager_get_connecting_service [] = none
connman_manager_get_connecting_service (s ∷ ss) =
    let state = connman_service_get_state s.state in
    let rest = connman_manager_get_connecting_service ss in
    if is_association_state state || is_configuration_state state then some s else rest

unfoldable pub connman_manager_is_manager_available : Option Manager → Bool
connman_manager_is_manager_available none = false
connman_manager_is_manager_available (some m) = not m.offline
