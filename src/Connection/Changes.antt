-- ===== src/Connection/Changes.antt =====
-- `check_service_for_update` and `check_update_is_needed` of src/connectionmanager_service.c: has
-- anything changed since subscribers were told last?
use webos_connman_adapter.Base.{
  ℕ, suc, Bool, true, false, ◌&&◌, ◌||◌, not, List, [], ◌∷◌, Option, none, some, if◌then◌else◌,
  is_some, length, ◌==◌, ltb, any,
}
use webos_connman_adapter.Common.{
  is_wifi_powered, is_wifi_tethering, is_cellular_powered, is_bluetooth_tethering,
}
use webos_connman_adapter.Service.Kind.{p2p}
use webos_connman_adapter.Service.State.{
  Service, change_getstatus, connman_service_is_changed, connman_service_unset_changed, same_type,
  same_bool, connman_service_is_connected,
}
use webos_connman_adapter.Group.{Group}
use webos_connman_adapter.Manager.State.{Manager}
use webos_connman_adapter.Manager.Connected.{write_in, connman_manager_is_manager_online}
use webos_connman_adapter.Connection.State.{Remote, Shown, Connection}
use webos_connman_adapter.Connection.Reply.{get_connected_if}

abbrev pub is_none : List Group → Bool
is_none [] = true
is_none (g ∷ gs) = false

-- A change between "no service" and "a service".
abbrev pub differs : Option Service → Bool → Bool
differs none tech_connected = tech_connected
differs (some s) tech_connected = not tech_connected

-- Whether an update is needed, and the service without its mark; `no_groups` is
-- `manager->groups == NULL`.
unfoldable pub check_service_for_update : Bool → Option Service → Bool → Bool × Option Service
unfolding connman_service_is_changed connman_service_unset_changed
check_service_for_update no_groups none tech_connected = (differs none tech_connected, none)
check_service_for_update no_groups (some s) tech_connected =
    let marked = connman_service_is_changed change_getstatus s in
    let s' = if marked then connman_service_unset_changed change_getstatus s else s in
    let ignored = same_type s.type p2p && not tech_connected && no_groups in
    ((differs (some s) tech_connected || marked) && not ignored, some s')

abbrev pub write_back : Option Service → List Service → List Service
write_back none ss = ss
write_back (some s) ss = write_in s ss

-- One list: an update is needed, a service is connected, the list with the mark taken back.
pub record Checked : Type 0 where
  pub needed : Bool
  pub connected : Bool
  pub services : List Service

unfoldable pub check_list : Remote → Bool → Bool → Bool → List Service → Checked
unfolding check_service_for_update
check_list r no_groups powered tech_connected ss =
    let found = get_connected_if powered r ss in
    let checked = check_service_for_update no_groups found.0 tech_connected in
    record {
      needed = checked.0;
      connected = is_some found.0;
      services = write_back checked.1 found.1;
    }

-- The loop over the cellular services; `wan_connected || num_connected > 0` holds in it, as the
-- count has been raised.
unfoldable pub check_cellular : Bool → Bool → ℕ → List Service → Bool × ℕ × List Service
unfolding check_service_for_update
check_cellular no_groups wan_connected num_connected [] = (false, num_connected, [])
check_cellular no_groups wan_connected num_connected (s ∷ ss) =
    let checked =
      check_service_for_update no_groups (some s) (wan_connected || ltb 0 (suc num_connected)) in
    let met = check_cellular no_groups wan_connected (suc num_connected) ss in
    let other = check_cellular no_groups wan_connected num_connected ss in
    if connman_service_is_connected s
    then (checked.0 || met.0, met.1, write_back checked.1 (s ∷ met.2))
    else (other.0, other.1, s ∷ other.2)

-- What `check_update_is_needed` finds: the manager with its new state, the four lists of which one
-- service counts, and the cellular services with the number of connected ones.
pub record Findings : Type 0 where
  pub manager : Manager
  pub wifi_tethering : Bool
  pub pan_tethering : Bool
  pub online : Bool
  pub no_groups : Bool
  pub wifi : Checked
  pub wired : Checked
  pub p2p : Checked
  pub pan : Checked
  pub cellular_powered : Bool
  pub wan : Bool × ℕ × List Service

unfoldable pub findings_of : Remote → Manager → Shown → Findings
unfolding check_list check_cellular
findings_of r m0 old =
    let online = connman_manager_is_manager_online r.state_reply m0 in
    let m = online.1 in
    let no_groups = is_none m.groups in
    let powered = is_wifi_powered (some m) in
    record {
      manager = m;
      wifi_tethering = is_wifi_tethering (some m0);
      pan_tethering = is_bluetooth_tethering (some m0);
      online = online.0;
      no_groups = no_groups;
      wifi = check_list r no_groups powered old.wifi_connected m.wifi_services;
      wired = check_list r no_groups true old.wired_connected m.wired_services;
      p2p = check_list r no_groups powered old.p2p_connected m.p2p_services;
      pan = check_list r no_groups true old.pan_connected m.bluetooth_services;
      cellular_powered = is_cellular_powered (some m);
      wan = check_cellular no_groups old.wan_connected 0 m.cellular_services;
    }

-- The conditions under which `needed` is set.
unfoldable pub reasons : Findings → Shown → List Bool
reasons f old =
    not (same_bool old.wifi_tethering f.wifi_tethering)
    ∷ not (same_bool old.pan_tethering f.pan_tethering)
    ∷ not (same_bool old.online_status f.online)
    ∷ f.wifi.needed
    ∷ f.wired.needed
    ∷ not (length f.wired.services == old.wired_plugged)
    ∷ f.p2p.needed
    ∷ not (same_bool old.cellular_powered f.cellular_powered)
    ∷ f.pan.needed
    ∷ f.wan.0
    ∷ not (same_bool old.wan_connected (ltb 0 f.wan.1))
    ∷ []

unfoldable pub shown_after : Findings → Shown
shown_after f = record {
  wifi_tethering = f.wifi_tethering;
  pan_tethering = f.pan_tethering;
  online_status = f.online;
  wifi_connected = f.wifi.connected;
  wired_connected = f.wired.connected;
  wired_plugged = length f.wired.services;
  p2p_connected = f.p2p.connected && not f.no_groups;
  cellular_powered = f.cellular_powered;
  pan_connected = f.pan.connected;
  wan_connected = ltb 0 f.wan.1;
}

unfoldable pub manager_after : Findings → Manager
manager_after f = record f.manager {
  wifi_services = f.wifi.services;
  wired_services = f.wired.services;
  p2p_services = f.p2p.services;
  bluetooth_services = f.pan.services;
  cellular_services = f.wan.2;
}

unfoldable pub check_update_is_needed : Remote → Connection → Bool × Connection
unfolding findings_of reasons shown_after manager_after
check_update_is_needed r c = elim c.manager [
  | none ↦ (false, c)
  | some m ↦
      let f = findings_of r m c.shown in
      (
        any (λ b. b) (reasons f c.shown),
        record c { manager = some (manager_after f); shown = shown_after f },
      )
]
