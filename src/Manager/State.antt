-- ===== src/Manager/State.antt =====
-- `connman_manager_t` of src/connman_manager.h, as far as services and technologies go, and what
-- the D-Bus signals carry.
use webos_connman_adapter.Base.{Bool, false, List, [], Option, none, String}
use webos_connman_adapter.Technology.{Technology}
use webos_connman_adapter.Group.{Group}
use webos_connman_adapter.Service.State.{Service}
use webos_connman_adapter.Service.Update.{Property, Texts}

-- The bits of `service_type`: `ETHERNET_SERVICES_CHANGED` and so on.
pub record ServicesChanged : Type 0 where
  pub ethernet : Bool
  pub wifi : Bool
  pub p2p : Bool
  pub cellular : Bool
  pub bluetooth : Bool

abbrev pub none_changed : ServicesChanged
none_changed = record {
  ethernet = false;
  wifi = false;
  p2p = false;
  cellular = false;
  bluetooth = false;
}

-- What the manager tells others: a call of `handle_services_change_fn` with its flags, a call of
-- `handle_technologies_change_fn`, a refresh of the peers of all groups.
pub data ManagerNotice : Type 0 where
  services_change : ServicesChanged → ManagerNotice
  technologies_change : ManagerNotice
  peers_refreshed : ManagerNotice

-- The service lists hold pointers to services with distinct paths (`Manager/Counts.antt`), so a
-- path stands for the pointer. The handlers are flags: registered or not.
pub record Manager : Type 0 where
  pub wifi_services : List Service
  pub wired_services : List Service
  pub p2p_services : List Service
  pub bluetooth_services : List Service
  pub cellular_services : List Service
  pub saved_services : List Service
  pub technologies : List Technology
  pub groups : List Group
  pub state : Option String
  pub offline : Bool
  pub wol_wowl : Bool
  pub handle_services_change_fn : Bool
  pub handle_technologies_change_fn : Bool
  pub notices : List ManagerNotice

-- `connman_manager_new` before its first remote call.
abbrev pub new_manager : Manager
new_manager = record {
  wifi_services = [];
  wired_services = [];
  p2p_services = [];
  bluetooth_services = [];
  cellular_services = [];
  saved_services = [];
  technologies = [];
  groups = [];
  state = none;
  offline = false;
  wol_wowl = false;
  handle_services_change_fn = false;
  handle_technologies_change_fn = false;
  notices = [];
}

-- One service of a D-Bus message.
pub record ServiceEntry : Type 0 where
  pub path : String
  pub properties : List Property

-- The texts of the locale, the paths whose D-Bus proxy can be made, and the names of the wifi and
-- the wired interface, which the build fixes.
pub record Env : Type 0 where
  pub texts : Texts
  pub proxy_made : String → Bool
  pub wifi_interface_name : String
  pub wired_interface_name : String
