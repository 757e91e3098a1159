-- ===== src/Connection/P2p.antt =====
-- `append_p2p_connection_status` and `group_property_changed_callback` of
-- src/connectionmanager_service.c.
use webos_connman_adapter.Base.{
  ℕ, Bool, ◌||◌, List, [], ◌∷◌, none, some, String, str_eq, if◌then◌else◌, is_some, ◌==◌,
}
use webos_connman_adapter.Platform.{Json, Fields, member, items_of}
use webos_connman_adapter.Service.Kind.{connman_service_get_state, is_online_state, is_ready_state}
use webos_connman_adapter.Service.State.{Service}
use webos_connman_adapter.Group.{
  Group, connman_group_get_local_address, connman_group_register_property_changed_cb,
}
use webos_connman_adapter.Manager.State.{Manager}
use webos_connman_adapter.Manager.Connected.{connman_manager_populate_group_peers}
use webos_connman_adapter.Connection.State.{Remote, put_text, text_or, utf8_of}
use webos_connman_adapter.Connection.Message.{a_text}

abbrev pub is_online_or_ready : Service → Bool
is_online_or_ready s =
    let state = connman_service_get_state s.state in is_online_state state || is_ready_state state

-- The loop over the peers of a group; `path` is that of the connected service.
unfoldable pub visit_peers : Remote → String → List String → Group → Fields → Group × Fields
unfolding connman_group_get_local_address connman_group_register_property_changed_cb
visit_peers r path [] g fs = (g, fs)
visit_peers r path (peer ∷ peers) g fs =
    let asked =
      if is_some g.local_address
      then g
      else (connman_group_get_local_address r.address_reply g).1 in
    let met =
      visit_peers r path peers (connman_group_register_property_changed_cb asked)
        (put_text "localIp" (utf8_of r asked.local_address) fs) in
    let other = visit_peers r path peers g fs in if str_eq peer path then met else other

-- The loop over the groups, with the p2p services, whose addresses it sets.
unfoldable pub visit_groups :
    Remote → String → List Group → List Service → Fields → List Group × List Service × Fields
unfolding connman_manager_populate_group_peers visit_peers
visit_groups r path [] ss fs = ([], ss, fs)
visit_groups r path (g ∷ gs) ss fs =
    elim (connman_manager_populate_group_peers (r.peers_reply g) g ss) [
      | none ↦ let rest = visit_groups r path gs ss fs in (g ∷ rest.0, rest.1, rest.2)
      | some (filled, ss') ↦
          let visited = visit_peers r path filled.peer_list filled fs in
          let rest = visit_groups r path gs ss' visited.1 in (visited.0 ∷ rest.0, rest.1, rest.2)
    ]

abbrev put_config_method : ℕ → Fields → Fields
put_config_method n fs = if n == 0 then fs else member "configMethod" (Json.number n) fs

-- The object of a peer.
unfoldable pub peer_info : Remote → Service → Json
peer_info r s =
    let named = member "deviceName" (text_or r.jstring_null (utf8_of r s.name)) Fields.end in
    let owner =
      member "groupOwner" (Json.boolean s.peer.group_owner)
        (put_text "deviceAddress" s.peer.address named) in
    let level =
      member "signalLevel" (Json.number s.strength)
        (put_config_method s.peer.config_method owner) in
    Json.obj
      (member "peerInfo" (Json.obj (put_text "peerIp" s.ipinfo.ipv4.address level)) Fields.end)

unfoldable pub connected_peers : Remote → List Service → List Json
unfolding peer_info
connected_peers r [] = []
connected_peers r (s ∷ ss) =
    let rest = connected_peers r ss in if is_online_or_ready s then peer_info r s ∷ rest else rest

unfoldable pub append_p2p_connection_status : Remote → Service → Manager → Fields → Manager × Fields
unfolding visit_groups connected_peers
append_p2p_connection_status r s m fs =
    let visited =
      visit_groups r s.path m.groups m.p2p_services (member "state" (a_text "connected") fs) in
    let peers = Json.arr (items_of (connected_peers r visited.1)) in
    if is_online_or_ready s
    then (
      record m { groups = visited.0; p2p_services = visited.1 },
      member "connectedPeers" peers visited.2,
    )
    else (m, member "state" (a_text "disconnected") fs)
