-- ===== src/Common.antt =====
-- src/common.c: the checks that the handlers of all services share, and the replies they give with
-- the codes of src/errors.h.
use webos_connman_adapter.Base.{
  Bool, true, false, [], ◌∷◌, ◌==◌, Option, none, some, Bytes, if◌then◌else◌, is_some,
}
use webos_connman_adapter.Platform.{Fields}
use webos_connman_adapter.Technology.{Technology}
use webos_connman_adapter.Manager.State.{Manager}
use webos_connman_adapter.Manager.Lookup.{
  connman_manager_find_wifi_technology, connman_manager_find_cellular_technology,
  connman_manager_find_bluetooth_technology, connman_manager_find_ethernet_technology,
  connman_manager_is_manager_available,
}

-- The error codes, by what follows WCA_API_ERROR_.
pub data ErrorCode : Type 0 where
  invalid_parameters connman_unavailable wifi_tech_unavailable cellular_tech_unavailable : ErrorCode
  bluetooth_technology_unavailable network_not_found no_connected_nw already_enabled : ErrorCode
  bluetooth_switched_off internal already_connecting unknown : ErrorCode
  connect_failed dhcp_failed no_service_connected disconnect_failed : ErrorCode
  tethering_enable_failed tethering_disable_failed wan_switched_off : ErrorCode
  already_disabled failed_to_connect host_route_not_set wired_wifi_online wired_online wifi_online
        wps_pin :
      ErrorCode

-- `LSMessageReplySuccess`, `…ErrorInvalidParams`, `…ErrorUnknown`, `…CustomError`, and `LSMessageReply`
-- of an object.
pub data Reply : Type 0 where
  success invalid_params error_unknown : Reply
  custom_error : ErrorCode → Reply
  payload : Fields → Reply

abbrev powered_in : Option Technology → Bool
powered_in none = false
powered_in (some t) = t.powered

abbrev tethering_in : Option Technology → Bool
tethering_in none = false
tethering_in (some t) = t.tethering

unfoldable pub is_wifi_powered : Option Manager → Bool
unfolding connman_manager_find_wifi_technology
is_wifi_powered m = powered_in (connman_manager_find_wifi_technology m)

unfoldable pub is_wifi_tethering : Option Manager → Bool
unfolding connman_manager_find_wifi_technology
is_wifi_tethering m = tethering_in (connman_manager_find_wifi_technology m)

unfoldable pub is_cellular_powered : Option Manager → Bool
unfolding connman_manager_find_cellular_technology
is_cellular_powered m = powered_in (connman_manager_find_cellular_technology m)

unfoldable pub is_bluetooth_powered : Option Manager → Bool
unfolding connman_manager_find_bluetooth_technology
is_bluetooth_powered m = powered_in (connman_manager_find_bluetooth_technology m)

unfoldable pub is_bluetooth_tethering : Option Manager → Bool
unfolding connman_manager_find_bluetooth_technology
is_bluetooth_tethering m = tethering_in (connman_manager_find_bluetooth_technology m)

-- In src/connectionmanager_service.c.
unfoldable pub is_ethernet_powered : Option Manager → Bool
unfolding connman_manager_find_ethernet_technology
is_ethernet_powered m = powered_in (connman_manager_find_ethernet_technology m)

-- The checks: the reply that is sent where the check fails.
unfoldable pub connman_status_check : Option Manager → Option Reply
unfolding connman_manager_is_manager_available
connman_status_check m =
    if connman_manager_is_manager_available m
    then none
    else some (Reply.custom_error ErrorCode.connman_unavailable)

unfoldable pub wifi_technology_status_check : Option Manager → Option Reply
unfolding connman_manager_find_wifi_technology
wifi_technology_status_check m =
    if is_some (connman_manager_find_wifi_technology m)
    then none
    else some (Reply.custom_error ErrorCode.wifi_tech_unavailable)

unfoldable pub cellular_technology_status_check : Option Manager → Option Reply
unfolding connman_manager_find_cellular_technology
cellular_technology_status_check m =
    if is_some (connman_manager_find_cellular_technology m)
    then none
    else some (Reply.custom_error ErrorCode.cellular_tech_unavailable)

unfoldable pub bluetooth_technology_status_check : Option Manager → Option Reply
unfolding connman_manager_find_bluetooth_technology
bluetooth_technology_status_check m =
    if is_some (connman_manager_find_bluetooth_technology m)
    then none
    else some (Reply.custom_error ErrorCode.bluetooth_technology_unavailable)

-- `has_colon` is `strstr (ipAddress, ":") != NULL`; `inet_pton` answers 1, 0 or -1 for the families
-- AF_INET6 and AF_INET, here whether that is not 0.
abbrev has_colon : Bytes → Bool
has_colon [] = false
has_colon (b ∷ bs) = let rest = has_colon bs in if b == 58 then true else rest

module _ (inet_pton6 inet_pton4 : Bytes → Bool) where
  unfoldable pub is_valid_ipv6address : Bytes → Bool
  is_valid_ipv6address s = if has_colon s then inet_pton6 s else false

  unfoldable pub is_valid_ipaddress : Bytes → Bool
  unfolding is_valid_ipv6address
  is_valid_ipaddress s = if is_valid_ipv6address s then true else inet_pton4 s
