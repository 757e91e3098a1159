-- ===== src/Examples/Network.antt =====
-- Runs of the texts of src/utils.c, the services of src/connman_service.c and the lists of
-- src/connman_manager.c.
use webos_connman_adapter.Base.{
  ◌≤◌, ◌≡◌, ◌↔◌, refl, true, false, List, [], ◌∷◌, Option, none, some, String, str_eq, is_some,
  Bytes, codes, arith,
}
use webos_connman_adapter.Utils.Passphrase.{
  is_valid_wifi_passphrase, IsAcceptable, is_valid_wifi_passphrase_iff,
}
use webos_connman_adapter.Service.Kind.{type_of}
use webos_connman_adapter.Service.State.{
  Service, connman_service_type_wifi, connman_service_type_ethernet,
}
use webos_connman_adapter.Service.Update.{
  Texts, Property, blank_service, connman_service_new, connman_service_update_properties,
  update_property,
}
use webos_connman_adapter.Service.Marks.{Marked, update_properties-Marked}
use webos_connman_adapter.Manager.State.{Manager, new_manager, Env, ServiceEntry}
use webos_connman_adapter.Manager.Services.{
  service_on_configured_iface, add_service_to_list, add_new_service, update_or_add_service,
  connman_manager_update_services, connman_manager_remove_old_services, services_changed_cb,
}
use webos_connman_adapter.Manager.Lookup.{find_service_from_path}
use webos_connman_adapter.Manager.Counts.{total}
use webos_connman_adapter.Manager.Removal.{is_removed}
use webos_connman_adapter.Manager.Total.{services_changed_cb-some}
use webos_connman_adapter.Manager.Signals.{HasDistinctPaths, services_changed_cb-total}

-- A conversion that knows one encoding.
abbrev pub g_convert : Bytes → String → Option Bytes
g_convert s encoding = elim (str_eq encoding "SHIFT-JIS") [ true ↦ some s | false ↦ none ]

abbrev pub g_convert_with_fallback : Bytes → String → Option Bytes
g_convert_with_fallback s encoding = some (codes "?")

is_valid_wifi_passphrase_example :
    ((is_valid_wifi_passphrase (some (codes "password")) (some (codes "psk")) ≡ true)
      ↔ IsAcceptable (codes "password") (codes "psk"))
    × ((s : Option Bytes) → is_valid_wifi_passphrase none s ≡ false)
    × ((s : Option Bytes) → is_valid_wifi_passphrase s none ≡ false)
is_valid_wifi_passphrase_example = is_valid_wifi_passphrase_iff (codes "password") (codes "psk")

abbrev pub texts : Texts
texts = record {
  is_utf8 = λ s. true;
  g_convert = g_convert;
  g_convert_with_fallback = g_convert_with_fallback;
  system_locale = none;
}

abbrev properties : List Property
properties =
    Property.type "wifi" ∷ Property.state "ready" ∷ Property.strength 70 ∷ Property.online true ∷ []

abbrev pub service : Service
service = blank_service "/net/connman/service/wifi_0"

abbrev leaving : Service
leaving = record service {
  state = some "disconnect";
  disconnecting = true;
  handle_property_change_fn = true;
}

update_properties-Marked_example :
    Marked service (connman_service_update_properties texts properties service)
update_properties-Marked_example = update_properties-Marked texts properties service

abbrev env : Env
env = record {
  texts = texts;
  proxy_made = λ path. true;
  wifi_interface_name = "wlan0";
  wired_interface_name = "eth0";
}

-- Two services: one of wifi and one of a cable.
abbrev both : List ServiceEntry
both =
    record {
      path = "/wifi";
      properties = Property.type "wifi" ∷ Property.ethernet_iface (some "wlan0" ∷ []) ∷ [];
    }
    ∷ record {
      path = "/wired";
      properties = Property.type "ethernet" ∷ Property.ethernet_iface (some "eth0" ∷ []) ∷ [];
    }
    ∷ []

abbrev or_new : Option Manager → Manager
or_new none = new_manager
or_new (some m) = m

abbrev later : Manager
later = or_new (services_changed_cb env (some both) (some ("/wired" ∷ [])) new_manager)

services_changed_cb-total_example :
    HasDistinctPaths later
    × ((q : String) → is_removed q ("/wired" ∷ []) ≡ true → total q later ≡ 0)
    × ((q : String) → is_removed q ("/wired" ∷ []) ≡ false → total q new_manager ≤ total q later)
unfolding services_changed_cb connman_manager_update_services update_or_add_service
    find_service_from_path add_new_service service_on_configured_iface add_service_to_list
    connman_service_type_wifi connman_service_new connman_service_update_properties update_property
    type_of connman_manager_remove_old_services connman_service_type_ethernet
services_changed_cb-total_example =
    services_changed_cb-total env both ("/wired" ∷ []) new_manager {m' = later} (λ q. omega arith)
      refl

services_changed_cb-some_example :
    is_some (services_changed_cb env (some both) (some ("/wired" ∷ [])) new_manager) ≡ true
services_changed_cb-some_example =
    services_changed_cb-some env both ("/wired" ∷ []) new_manager (refl, (refl, tt)) (refl, tt)
