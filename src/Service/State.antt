-- ===== src/Service/State.antt =====
-- `connman_service_t` as far as properties reach it, and `connman_service_advance_state` and
-- `connman_service_advance_online_state` of src/connman_service.c.
use webos_connman_adapter.Base.{
  ℕ, Bool, true, false, ◌&&◌, ◌||◌, not, List, ◌∷◌, Option, none, some, String, str_eq, str_eq0,
  if◌then◌else◌, Bytes,
}
use webos_connman_adapter.Service.Info.{ℤ, IpInfo, ProxyInfo, Peer}
use webos_connman_adapter.Service.Kind.{
  ServiceType, unknown, ethernet, wifi, p2p, cellular, bluetooth, connman_service_get_state,
  is_online_state, is_ready_state,
}

-- `bssinfo_t`.
pub record BssInfo : Type 0 where
  pub bssid : Bytes
  pub signal : ℤ
  pub frequency : ℤ

-- The two bits of `change_mask`: category 1 and category 2.
pub record ChangeMask : Type 0 where
  pub findnetworks : Bool
  pub getstatus : Bool

-- What a service tells others: a call of its `handle_property_change_fn` with "State" or "Online",
-- or `connectionmanager_send_status_to_subscribers`.
pub data Notice : Type 0 where
  state_changed online_changed status_sent : Notice

-- `handle_property_change_fn` is whether a handler is registered; `notices` is newest first. What a
-- handler does afterwards is no part of the service.
pub record Service : Type 0 where
  pub path : String
  pub identifier : Option Bytes
  pub name : Option String
  pub display_name : Option Bytes
  pub ssid : Option Bytes
  pub state : Option String
  pub error : Option String
  pub address : Option String
  pub strength : ℕ
  pub security : Option (List String)
  pub auto_connect : Bool
  pub disconnecting : Bool
  pub immutable : Bool
  pub favorite : Bool
  pub hidden : Bool
  pub online : Bool
  pub online_checking : Bool
  pub type : ServiceType
  pub bss : Option (List BssInfo)
  pub ipinfo : IpInfo
  pub hostroutes : Option (List Bytes)
  pub proxyinfo : ProxyInfo
  pub peer : Peer
  pub change_mask : ChangeMask
  pub handle_property_change_fn : Bool
  pub notices : List Notice

abbrev pub no_change : ChangeMask
no_change = record { findnetworks = false; getstatus = false }

abbrev pub change_findnetworks : ChangeMask
change_findnetworks = record { findnetworks = true; getstatus = false }

abbrev pub change_getstatus : ChangeMask
change_getstatus = record { findnetworks = false; getstatus = true }

abbrev pub change_both : ChangeMask
change_both = record { findnetworks = true; getstatus = true }

-- `change_mask |= category` and `change_mask &= ~category`.
unfoldable pub connman_service_set_changed : ChangeMask → Service → Service
connman_service_set_changed c s =
    let m = s.change_mask in
    record s {
      change_mask = record {
        findnetworks = m.findnetworks || c.findnetworks;
        getstatus = m.getstatus || c.getstatus;
      };
    }

unfoldable pub connman_service_unset_changed : ChangeMask → Service → Service
connman_service_unset_changed c s =
    let m = s.change_mask in
    record s {
      change_mask = record {
        findnetworks = m.findnetworks && not c.findnetworks;
        getstatus = m.getstatus && not c.getstatus;
      };
    }

unfoldable pub connman_service_is_changed : ChangeMask → Service → Bool
connman_service_is_changed c s =
    s.change_mask.findnetworks && c.findnetworks || s.change_mask.getstatus && c.getstatus

-- The five tests of the type; NULL is of no type.
abbrev pub same_type : ServiceType → ServiceType → Bool
same_type unknown unknown = true
same_type ethernet ethernet = true
same_type wifi wifi = true
same_type p2p p2p = true
same_type cellular cellular = true
same_type bluetooth bluetooth = true
same_type _ _ = false

unfoldable pub connman_service_type_wifi : Option Service → Bool
connman_service_type_wifi none = false
connman_service_type_wifi (some s) = same_type s.type wifi

unfoldable pub connman_service_type_ethernet : Option Service → Bool
connman_service_type_ethernet none = false
connman_service_type_ethernet (some s) = same_type s.type ethernet

unfoldable pub connman_service_type_p2p : Option Service → Bool
connman_service_type_p2p none = false
connman_service_type_p2p (some s) = same_type s.type p2p

unfoldable pub connman_service_type_wan : Option Service → Bool
connman_service_type_wan none = false
connman_service_type_wan (some s) = same_type s.type cellular

unfoldable pub connman_service_type_bluetooth : Option Service → Bool
connman_service_type_bluetooth none = false
connman_service_type_bluetooth (some s) = same_type s.type bluetooth

abbrev pub notify : Notice → Service → Service
notify n s = if s.handle_property_change_fn then record s { notices = n ∷ s.notices } else s

unfoldable pub connman_service_advance_state : String → Service → Service
unfolding connman_service_set_changed
connman_service_advance_state new_state s =
    let changed = connman_service_set_changed change_both (record s { state = some new_state }) in
    if s.disconnecting && not (str_eq new_state "ready") && not (str_eq new_state "online")
    then record s { disconnecting = false }
    else if str_eq0 s.state (some new_state)
    then s
    else notify state_changed changed

abbrev pub same_bool : Bool → Bool → Bool
same_bool true b = b
same_bool false b = not b

unfoldable pub connman_service_advance_online_state : Bool → Service → Service
unfolding connman_service_set_changed connman_service_type_ethernet
connman_service_advance_online_state new_online s =
    let s' = connman_service_set_changed change_getstatus (record s { online = new_online }) in
    if same_bool s.online new_online
    then record s { online = new_online }
    else if s.handle_property_change_fn
    then notify online_changed s'
    else if connman_service_type_ethernet (some s')
    then record s' { notices = status_sent ∷ s.notices }
    else s'

unfoldable pub connman_service_is_connected : Service → Bool
unfolding connman_service_get_state
connman_service_is_connected s =
    let state = connman_service_get_state s.state in is_online_state state || is_ready_state state

unfoldable pub connman_service_is_online : Service → Bool
unfolding connman_service_get_state
connman_service_is_online s = is_online_state (connman_service_get_state s.state)
