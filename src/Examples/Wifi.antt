-- ===== src/Examples/Wifi.antt =====
-- Runs of the network list of src/wifi_service.c and the technologies of src/connman_manager.c.
use mathlib.Core.List
use mathlib.Core.List.{Perm}
use webos_connman_adapter.Base.{
  ◌≡◌, ◌⊎◌, refl, Bool, true, false, List, [], ◌∷◌, ◌++◌, Option, none, some, String, is_some,
  codes, All,
}
use webos_connman_adapter.Technology.{Technology, TechnologyProperty}
use webos_connman_adapter.Profile.State.{profiles_in_order, get_profile_by_ssid_security}
use webos_connman_adapter.Profile.Ops.{delete_profile}
use webos_connman_adapter.Service.Kind.{wifi, connman_service_get_state}
use webos_connman_adapter.Service.State.{Service, change_findnetworks}
use webos_connman_adapter.Service.Update.{Property, connman_service_update_properties}
use webos_connman_adapter.Manager.State.{Manager, new_manager, ServicesChanged, none_changed}
use webos_connman_adapter.Manager.Lookup.{connman_manager_find_service_by_path}
use webos_connman_adapter.Manager.Services.{technology_added_cb}
use webos_connman_adapter.Wifi.Signal.{compare_signal_strength}
use webos_connman_adapter.Wifi.Networks.{NetworkInfo, populate_wifi_networks}
use webos_connman_adapter.Wifi.Order.{
  IsDescending, out_of_range, network_in_range, populate_wifi_networks_lem,
}
use webos_connman_adapter.Wifi.Updates.{
  Listing, check_wifi_services_for_updates, manager_services_changed_callback, network_messages,
  IsUnmarked, AreTold, manager_services_changed_callback_lem,
}
use webos_connman_adapter.Wifi.Total.{manager_services_changed_callback-total}
use webos_connman_adapter.Wifi.Removal.{
  Adapter, delete_profile_if_not_connected, removal_calls, delete_profile_if_not_connected_lem,
}
use webos_connman_adapter.Wifi.RemovalTotal.{delete_profile_if_not_connected-some}
use webos_connman_adapter.Examples.Host.{host}
use webos_connman_adapter.Examples.Network.{texts, service}
use webos_connman_adapter.Examples.Profile.{two}
use webos_connman_adapter.Examples.Sort.{sort_services, sort_services-IsSort}

abbrev near : Service
near = record service {
  path = "/near";
  name = some "home";
  strength = 70;
  state = some "ready";
  type = wifi;
  security = some ("psk" ∷ []);
  change_mask = change_findnetworks;
}

abbrev far : Service
far = record service {
  path = "/far";
  name = some "cafe";
  strength = 40;
  type = wifi;
  security = some ("none" ∷ []);
}

abbrev hidden : Service
hidden = record service {
  path = "/hidden";
  strength = 90;
  type = wifi;
  security = some ("psk" ∷ []);
}

abbrev manager : Manager
manager = record new_manager { wifi_services = hidden ∷ far ∷ near ∷ [] }

-- The same with saved services, one of them in range.
abbrev with_saved : Manager
with_saved = record manager { saved_services = near ∷ record far { path = "/saved" } ∷ [] }

abbrev listed : List NetworkInfo × Manager
listed = elim (populate_wifi_networks codes two.wifi_profile_list sort_services true with_saved) [
  | none ↦ ([], manager)
  | some r ↦ r
]

populate_wifi_networks_example :
    (n : List NetworkInfo) × (listed.0
      ≡ n ++ out_of_range codes two.wifi_profile_list true with_saved)
    × Perm n
        (List.filter_map (network_in_range codes two.wifi_profile_list) with_saved.wifi_services)
    × IsDescending n
    × All (λ i. i.available ≡ true) n
    × All (λ i. i.available ≡ false) (out_of_range codes two.wifi_profile_list true with_saved)
unfolding populate_wifi_networks profiles_in_order connman_manager_find_service_by_path
    compare_signal_strength connman_service_get_state
populate_wifi_networks_example =
    populate_wifi_networks_lem codes two.wifi_profile_list sort_services true with_saved
      {infos = listed.0} {m' = listed.1} sort_services-IsSort refl

abbrev before : Listing
before = record { manager = manager; sent = [] }

abbrev wifi_changed : ServicesChanged
wifi_changed = record none_changed { wifi = true }

abbrev after : Listing
after = elim (manager_services_changed_callback codes [] sort_services wifi_changed before) [
  | none ↦ before
  | some l ↦ l
]

manager_services_changed_callback_example :
    All IsUnmarked after.manager.wifi_services
    × ((check_wifi_services_for_updates before.manager.wifi_services ≡ true
          × AreTold codes [] sort_services before after)
        ⊎ (check_wifi_services_for_updates before.manager.wifi_services ≡ false
            × network_messages after.sent ≡ network_messages before.sent))
unfolding manager_services_changed_callback populate_wifi_networks profiles_in_order
manager_services_changed_callback_example =
    manager_services_changed_callback_lem codes [] sort_services wifi_changed before {l' = after}
      refl refl

manager_services_changed_callback-total_example :
    is_some (manager_services_changed_callback codes [] sort_services wifi_changed before) ≡ true
manager_services_changed_callback-total_example =
    manager_services_changed_callback-total codes [] sort_services wifi_changed before (tt, tt) tt

abbrev adapter : Adapter host.Prefs
adapter = record { manager = some manager; profiles = two; calls = [] }

-- The service "/near" is the connected one.
abbrev no_change_fetched : Service → Option (List Property)
no_change_fetched s = some []

abbrev deleted : Adapter host.Prefs
deleted =
    elim (delete_profile_if_not_connected host codes texts no_change_fetched "/near" adapter) [
      | none ↦ adapter
      | some a ↦ a
    ]

delete_profile_if_not_connected_example :
    deleted.calls ≡ removal_calls host codes "/near" manager []
unfolding delete_profile_if_not_connected connman_manager_find_service_by_path
    connman_service_get_state connman_service_update_properties delete_profile
    get_profile_by_ssid_security
delete_profile_if_not_connected_example =
    delete_profile_if_not_connected_lem host codes texts no_change_fetched "/near" manager adapter
      {b = deleted} refl refl refl

delete_profile_if_not_connected-some_example :
    is_some (delete_profile_if_not_connected host codes texts no_change_fetched "/near" adapter)
    ≡ true
delete_profile_if_not_connected-some_example =
    delete_profile_if_not_connected-some host codes texts no_change_fetched "/near" manager adapter
      refl (refl, (refl, (refl, tt))) ((λ e. refl), ((λ e. cc), tt))

abbrev wifi_properties : Technology → Option (List TechnologyProperty)
wifi_properties t = some (TechnologyProperty.type "wifi" ∷ TechnologyProperty.powered true ∷ [])

abbrev any_path : String → Bool
any_path path = true

abbrev with_wifi : Manager
with_wifi = technology_added_cb any_path wifi_properties "/technology/wifi" new_manager
