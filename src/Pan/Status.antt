-- ===== src/Pan/Status.antt =====
-- `append_pan_status` of src/pan_service.c: the status of the bluetooth connection.
use webos_connman_adapter.Base.{none, some, if◌then◌else◌}
use webos_connman_adapter.Platform.{Json, Fields, member}
use webos_connman_adapter.Common.{is_bluetooth_powered, is_bluetooth_tethering}
use webos_connman_adapter.Service.Info.{IpInfo}
use webos_connman_adapter.Service.State.{Service}
use webos_connman_adapter.Service.Details.{connman_service_get_ipinfo}
use webos_connman_adapter.Manager.State.{Manager}
use webos_connman_adapter.Manager.Connected.{write_in}
use webos_connman_adapter.Connection.State.{Remote, put_text, utf8_of}
use webos_connman_adapter.Connection.Message.{a_text, put_dns, strv}
use webos_connman_adapter.Connection.P2p.{is_online_or_ready}
use webos_connman_adapter.Connection.Reply.{get_connected, shown_name}

-- The "ipInfo" object.
unfoldable pub ip_object : IpInfo → Json
unfolding put_dns
ip_object i =
    let addresses = put_text "gateway" i.ipv4.gateway (
      put_text "subnet" i.ipv4.netmask
        (put_text "ip" i.ipv4.address (put_text "interface" i.iface Fields.end))) in
    Json.obj (put_text "method" i.ipv4.method (put_dns 0 (strv i.dns) addresses))

-- The service after the remote call, and the object.
unfoldable pub add_connected_network_status : Remote → Service → Fields → Service × Fields
unfolding connman_service_get_ipinfo ip_object
add_connected_network_status r s fs =
    let changed = member "status" (a_text "connectionStateChanged") fs in
    let info =
      put_text "address" (utf8_of r s.address) (member "displayName" (shown_name r s) Fields.end) in
    let located = (connman_service_get_ipinfo r.char_value (r.ip_reply s) s).1 in
    if is_online_or_ready s
    then (
      located,
      member "networkInfo" (Json.obj (member "ipInfo" (ip_object located.ipinfo) info)) changed,
    )
    else (s, member "networkInfo" (Json.obj info) changed)

-- A second "status" stands for the first.
unfoldable pub append_pan_status : Remote → Manager → Fields → Manager × Fields
unfolding add_connected_network_status
append_pan_status r m fs =
    let status = if is_bluetooth_powered (some m) then "serviceEnabled" else "serviceDisabled" in
    let head =
      member "status" (a_text status)
        (member "tetheringEnabled" (Json.boolean (is_bluetooth_tethering (some m))) fs) in
    let found = get_connected r m.bluetooth_services in
    elim found.0 [
      | none ↦ (record m { bluetooth_services = found.1 }, head)
      | some s ↦
          let added = add_connected_network_status r s head in
          (record m { bluetooth_services = write_in added.0 found.1 }, added.1)
    ]
