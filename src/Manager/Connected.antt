-- ===== src/Manager/Connected.antt =====
-- `connman_manager_get_connected_service` of src/connman_manager.c as a function of the list that it
-- writes into, and what the manager asks of connman: its state and the peers of a group.
use webos_connman_adapter.Base.{
  Bool, List, [], ◌∷◌, ◌++◌, Option, none, some, String, str_eq, str_eq0, if◌then◌else◌, is_some,
  Bytes,
}
use webos_connman_adapter.Group.{Group}
use webos_connman_adapter.Service.State.{Service}
use webos_connman_adapter.Service.Update.{Texts, Property, connman_service_update_properties}
use webos_connman_adapter.Manager.State.{Manager}
use webos_connman_adapter.Manager.Lookup.{counts_as_connected}
use webos_connman_adapter.Manager.Services.{is_in}

-- `connman_manager_get_connected_service` as a write: the first connected service takes the
-- properties that are fetched for it.
unfoldable pub update_first_connected :
    Texts → (Service → Option (List Property)) → List Service → List Service
update_first_connected texts fetch [] = []
update_first_connected texts fetch (s ∷ ss) =
    let rest = update_first_connected texts fetch ss in
    if counts_as_connected s
    then elim (fetch s) [
      | none ↦ s ∷ ss
      | some ps ↦ connman_service_update_properties texts ps s ∷ ss
    ]
    else s ∷ rest

-- The path of the service that it returns.
unfoldable pub connected_path : (Service → Option (List Property)) → List Service → Option String
connected_path fetch [] = none
connected_path fetch (s ∷ ss) =
    let rest = connected_path fetch ss in
    if counts_as_connected s then (if is_some (fetch s) then some s.path else none) else rest

-- A write through a pointer: the first service of the path takes the new value.
abbrev pub write_in : Service → List Service → List Service
write_in s [] = []
write_in s (t ∷ ts) = let rest = write_in s ts in if str_eq t.path s.path then s ∷ ts else t ∷ rest

-- The properties of the manager that `connman_manager_update_state` reads.
pub data ManagerProperty : Type 0 where
  state : String → ManagerProperty
  offline_mode wol_wowl_mode : Bool → ManagerProperty
  other : ManagerProperty

unfoldable pub set_manager_property : ManagerProperty → Manager → Manager
set_manager_property (ManagerProperty.state v) m = record m { state = some v }
set_manager_property (ManagerProperty.offline_mode b) m = record m { offline = b }
set_manager_property (ManagerProperty.wol_wowl_mode b) m = record m { wol_wowl = b }
set_manager_property ManagerProperty.other m = m

unfoldable pub set_manager_properties : List ManagerProperty → Manager → Manager
unfolding set_manager_property
set_manager_properties [] m = m
set_manager_properties (q ∷ qs) m = set_manager_properties qs (set_manager_property q m)

-- `reply` is the answer of the remote call, NULL if it fails.
unfoldable pub connman_manager_update_state : Option (List ManagerProperty) → Manager → Manager
unfolding set_manager_properties
connman_manager_update_state none m = m
connman_manager_update_state (some qs) m = set_manager_properties qs m

-- The answer, and the manager with its new state.
unfoldable pub connman_manager_is_manager_online :
    Option (List ManagerProperty) → Manager → Bool × Manager
unfolding connman_manager_update_state
connman_manager_is_manager_online reply m =
    let m' = connman_manager_update_state reply m in (str_eq0 m'.state (some "online"), m')

-- A peer of the answer to "GetPeers": its path, and of each property the value of "IPAddress".
pub record PeerEntry : Type 0 where
  pub path : String
  pub addresses : List (Option Bytes)

unfoldable pub set_peer_address : List (Option Bytes) → Service → Service
set_peer_address [] s = s
set_peer_address (none ∷ vs) s = set_peer_address vs s
set_peer_address (some a ∷ vs) s =
    set_peer_address vs
      (record s { ipinfo = record s.ipinfo { ipv4 = record s.ipinfo.ipv4 { address = some a } } })

abbrev pub set_address_in : PeerEntry → List Service → List Service
set_address_in e [] = []
set_address_in e (s ∷ ss) =
    let rest = set_address_in e ss in
    if str_eq s.path e.path then set_peer_address e.addresses s ∷ ss else s ∷ rest

-- The loop of `connman_manager_populate_group_peers`: the list of peers, and the p2p services.
unfoldable pub fill_peers : List PeerEntry → List String → List Service → List String × List Service
unfolding set_peer_address
fill_peers [] peers ss = (peers, ss)
fill_peers (e ∷ es) peers ss =
    let added = fill_peers es (peers ++ e.path ∷ []) (set_address_in e ss) in
    let skipped = fill_peers es peers ss in if is_in e.path ss then added else skipped

-- `none` where it answers FALSE.
unfoldable pub connman_manager_populate_group_peers :
    Option (List PeerEntry) → Group → List Service → Option (Group × List Service)
unfolding fill_peers
connman_manager_populate_group_peers none g ss = none
connman_manager_populate_group_peers (some es) g ss =
    let filled = fill_peers es [] ss in some (record g { peer_list = filled.0 }, filled.1)
