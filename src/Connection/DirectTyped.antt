-- ===== src/Connection/DirectTyped.antt =====
-- The "wifiDirect" object of the reply to getstatus of src/connectionmanager_service.c: the types
-- of its members.
use webos_connman_adapter.Base.{
  ◌≡◌, refl, sym, subst, inl, inr, List, Option, none, some, String, Bytes, bytes_eq, codes,
  if◌then◌else◌, Bool-cases, Option-cases, str_eq, [], ◌∷◌,
}
use webos_connman_adapter.Platform.{Fields, member}
use webos_connman_adapter.Service.State.{Service}
use webos_connman_adapter.Manager.State.{Manager}
use webos_connman_adapter.Manager.Connected.{connman_manager_populate_group_peers}
use webos_connman_adapter.Connection.State.{Remote, put_text}
use webos_connman_adapter.Connection.Message.{a_text}
use webos_connman_adapter.Connection.P2p.{
  append_p2p_connection_status, is_online_or_ready, visit_groups, visit_peers,
}
use webos_connman_adapter.Connection.Typed.{Kind, is_text, is_array, Typed, HasState}
use webos_connman_adapter.Group.{Group}

-- The kinds of the "wifiDirect" object.
abbrev pub direct_kind : Bytes → Kind
direct_kind k = if bytes_eq k (codes "connectedPeers") then is_array else is_text

abbrev pub IsDirect : Fields → Type 0
IsDirect fs = Typed direct_kind fs × HasState fs

put_local-IsDirect :
    (o : Option Bytes) (fs : Fields) → IsDirect fs → IsDirect (put_text "localIp" o fs)
put_local-IsDirect none fs h = h
put_local-IsDirect (some v) fs (typed, state) = ((refl, typed), state)

visit_peers-IsDirect :
    (r : Remote) (path : String) (peers : List String) (g : Group) (fs : Fields)
    → IsDirect fs
    → IsDirect (visit_peers r path peers g fs).1
unfolding visit_peers
visit_peers-IsDirect r path [] g fs h = h
visit_peers-IsDirect r path (peer ∷ peers) g fs h = elim (Bool-cases (str_eq peer path)) [
  | inl e ↦ rw (Typed, e) (visit_peers-IsDirect r path peers _ _ (put_local-IsDirect _ fs h))
  | inr e ↦ rw (Typed, e) (visit_peers-IsDirect r path peers g fs h)
]

visit_groups-IsDirect :
    (r : Remote) (path : String) (gs : List Group) (ss : List Service) (fs : Fields)
    → IsDirect fs
    → IsDirect (visit_groups r path gs ss fs).2
unfolding visit_groups
visit_groups-IsDirect r path [] ss fs h = h
visit_groups-IsDirect r path (g ∷ gs) ss fs h =
    elim (Option-cases (connman_manager_populate_group_peers (r.peers_reply g) g ss)) [
      | inl e ↦
          let skipped : (visit_groups r path (g ∷ gs) ss fs).2 ≡ (visit_groups r path gs ss fs).2 =
            rw (visit_groups, e) refl in
          subst IsDirect (sym skipped) (visit_groups-IsDirect r path gs ss fs h)
      | inr (filled, e) ↦
          let seen = visit_peers r path filled.0.peer_list filled.0 fs in
          let visited : (visit_groups r path (g ∷ gs) ss fs).2
              ≡ (visit_groups r path gs filled.1 seen.1).2 =
            rw (visit_groups, e) refl in
          subst IsDirect (sym visited) (
            visit_groups-IsDirect r path gs filled.1 seen.1
              (visit_peers-IsDirect r path filled.0.peer_list filled.0 fs h))
    ]

pub append_p2p-IsDirect :
    (r : Remote) (s : Service) (m : Manager)
    → IsDirect (append_p2p_connection_status r s m Fields.end).1
unfolding append_p2p_connection_status
append_p2p-IsDirect r s m = elim (Bool-cases (is_online_or_ready s)) [
  | inl e ↦
      let h =
        visit_groups-IsDirect r s.path m.groups m.p2p_services
          (member "state" (a_text "connected") Fields.end) ((refl, tt), inl refl) in
      rw (Typed, e) ((refl, h.0), h.1)
  | inr e ↦ rw (Typed, e) ((refl, tt), inr refl)
]
