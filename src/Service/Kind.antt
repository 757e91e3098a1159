-- ===== src/Service/Kind.antt =====
-- The types and the connection states of services: the enumerations of src/connman_service.h and
-- the functions of src/connman_service.c on them.
use webos_connman_adapter.Base.{
  Bool, true, false, Option, none, some, String, str_eq, if◌then◌else◌,
}

-- `connman_service_types`.
pub data ServiceType : Type 0 where
  unknown ethernet wifi p2p cellular bluetooth : ServiceType

-- The values of `CONNMAN_SERVICE_STATE_…`; `CONNMAN_SERVICE_STATE_UNKNOWN` is `no_state`.
pub data ServiceState : Type 0 where
  no_state idle association configuration ready online disconnect failure : ServiceState

-- The type "wifi", "ethernet", … of the "Type" property; another string leaves the type as it is.
unfoldable pub type_of : String → ServiceType → ServiceType
type_of v old =
    if str_eq v "wifi"
    then wifi
    else if str_eq v "ethernet"
    then ethernet
    else if str_eq v "Peer"
    then p2p
    else if str_eq v "cellular"
    then cellular
    else if str_eq v "bluetooth"
    then bluetooth
    else old

unfoldable pub connman_service_get_state : Option String → ServiceState
connman_service_get_state none = idle
connman_service_get_state (some state) =
    if str_eq state "idle"
    then idle
    else if str_eq state "association"
    then association
    else if str_eq state "configuration"
    then configuration
    else if str_eq state "ready"
    then ready
    else if str_eq state "online"
    then online
    else if str_eq state "disconnect"
    then disconnect
    else if str_eq state "failure"
    then failure
    else idle

unfoldable pub connman_service_get_webos_state : ServiceState → String
connman_service_get_webos_state disconnect = "notAssociated"
connman_service_get_webos_state idle = "notAssociated"
connman_service_get_webos_state association = "associating"
connman_service_get_webos_state configuration = "associated"
connman_service_get_webos_state ready = "ipConfigured"
connman_service_get_webos_state online = "ipConfigured"
connman_service_get_webos_state failure = "ipFailed"
connman_service_get_webos_state no_state = "notAssociated"

abbrev pub is_online_state : ServiceState → Bool
is_online_state online = true
is_online_state _ = false

abbrev pub is_ready_state : ServiceState → Bool
is_ready_state ready = true
is_ready_state _ = false

abbrev pub is_configuration_state : ServiceState → Bool
is_configuration_state configuration = true
is_configuration_state _ = false

abbrev pub is_association_state : ServiceState → Bool
is_association_state association = true
is_association_state _ = false
