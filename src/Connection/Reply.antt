-- ===== src/Connection/Reply.antt =====
-- `append_connection_status` of src/connectionmanager_service.c, and `append_nap_info` of
-- src/pan_service.c, which it calls: the reply to getstatus.
use webos_connman_adapter.Base.{
  ℕ, Bool, true, false, not, List, [], ◌∷◌, Option, none, some, if◌then◌else◌, ◌==◌, is_some,
  str_eq,
}
use webos_connman_adapter.Platform.{Json, Fields, member, items_of}
use webos_connman_adapter.Common.{
  is_wifi_powered, is_wifi_tethering, is_cellular_powered, is_bluetooth_tethering,
}
use webos_connman_adapter.Service.State.{Service}
use webos_connman_adapter.Manager.State.{Manager}
use webos_connman_adapter.Manager.Lookup.{
  connman_manager_get_connected_service, connman_manager_is_manager_available,
}
use webos_connman_adapter.Manager.Connected.{
  update_first_connected, write_in, connman_manager_is_manager_online,
}
use webos_connman_adapter.Wan.Status.{append_wan_status}
use webos_connman_adapter.Connection.State.{Remote, put_text, text_or, utf8_of}
use webos_connman_adapter.Connection.Message.{a_text, update_connection_status}
use webos_connman_adapter.Connection.P2p.{append_p2p_connection_status}

-- `connman_manager_get_connected_service` with the list that it leaves.
abbrev pub get_connected : Remote → List Service → Option Service × List Service
get_connected r ss = (
  connman_manager_get_connected_service r.texts r.fetch ss,
  update_first_connected r.texts r.fetch ss,
)

-- The same where wifi is powered, else NULL.
abbrev pub get_connected_if : Bool → Remote → List Service → Option Service × List Service
get_connected_if powered r ss = if powered then get_connected r ss else (none, ss)

-- The "wired" object.
unfoldable pub append_wired : Remote → ℕ → Manager → Fields → Manager × Fields
unfolding update_connection_status
append_wired r wired_plugged m fs =
    let found = get_connected r m.wired_services in
    let m' = record m { wired_services = found.1 } in
    elim found.0 [
      | none ↦ (
        m',
        member "wired"
            (Json.obj (
              member "plugged" (Json.boolean (not (wired_plugged == 0)))
                (member "state" (a_text "disconnected") Fields.end)))
            fs,
      )
      | some s ↦
          let updated = update_connection_status r s Fields.end in
          (
            record m' { wired_services = write_in updated.0 found.1 },
            member "wired" (Json.obj (member "plugged" (Json.boolean true) updated.1)) fs,
          )
    ]

-- The "wifi" object. With a connected service "tetheringEnabled" is put into the object that is
-- thrown away.
unfoldable pub append_wifi : Remote → Manager → Fields → Manager × Fields
unfolding update_connection_status
append_wifi r m fs =
    let found = get_connected_if (is_wifi_powered (some m)) r m.wifi_services in
    let m' = record m { wifi_services = found.1 } in
    elim found.0 [
      | none ↦ (
        m',
        member "wifi"
            (Json.obj (
              member "tetheringEnabled" (Json.boolean (is_wifi_tethering (some m)))
                (member "state" (a_text "disconnected") Fields.end)))
            fs,
      )
      | some s ↦
          let updated = update_connection_status r s Fields.end in
          (
            record m' { wifi_services = write_in updated.0 found.1 },
            member "wifi" (Json.obj updated.1) fs,
          )
    ]

-- The "wifiDirect" object.
unfoldable pub append_wifi_direct : Remote → Manager → Fields → Manager × Fields
unfolding append_p2p_connection_status
append_wifi_direct r m fs =
    let found = get_connected_if (is_wifi_powered (some m)) r m.p2p_services in
    let m' = record m { p2p_services = found.1 } in
    elim found.0 [
      | none ↦ (
        m',
        member "wifiDirect" (Json.obj (member "state" (a_text "disconnected") Fields.end)) fs,
      )
      | some s ↦
          let appended = append_p2p_connection_status r s m' Fields.end in
          (appended.0, member "wifiDirect" (Json.obj appended.1) fs)
    ]

-- The "cellular" and the "wan" object.
unfoldable pub append_cellular : Remote → Manager → Fields → Manager × Fields
unfolding append_wan_status
append_cellular r m fs =
    let enabled = is_cellular_powered (some m) in
    let fs' =
      member "cellular" (Json.obj (member "enabled" (Json.boolean enabled) Fields.end)) fs in
    let appended = append_wan_status r m.cellular_services Fields.end in
    if enabled
    then (record m { cellular_services = appended.0 }, member "wan" (Json.obj appended.1) fs')
    else (
      m,
      member "wan"
          (Json.obj (
            member "connectedContexts" (Json.arr (items_of []))
              (member "connected" (Json.boolean false) Fields.end)))
          fs',
    )

abbrev pub shown_name : Remote → Service → Json
shown_name r s =
    if is_some s.display_name
    then text_or r.jstring_null s.display_name
    else text_or r.jstring_null (utf8_of r s.name)

unfoldable pub append_nap_info : Remote → List Service → Fields → List Service × Fields
append_nap_info r ss fs =
    let found = get_connected r ss in
    elim found.0 [
      | none ↦ (found.1, fs)
      | some s ↦ (
        found.1,
        member "nap"
            (Json.obj (
              member "displayName" (shown_name r s)
                (put_text "address" (utf8_of r s.address) Fields.end)))
            fs,
      )
    ]

-- A read through the pointer to a service of the list.
abbrev pub read_in : Service → List Service → Service
read_in s [] = s
read_in s (t ∷ ts) = let rest = read_in s ts in if str_eq t.path s.path then t else rest

-- The "bluetooth" object. The service is fetched again for "nap".
unfoldable pub append_bluetooth : Remote → Manager → Fields → Manager × Fields
unfolding append_nap_info update_connection_status
append_bluetooth r m fs =
    let found = get_connected r m.bluetooth_services in
    elim found.0 [
      | none ↦ (
        record m { bluetooth_services = found.1 },
        member "bluetooth"
            (Json.obj (
              member "tetheringEnabled" (Json.boolean (is_bluetooth_tethering (some m)))
                (member "state" (a_text "disconnected") Fields.end)))
            fs,
      )
      | some s ↦
          let nap = append_nap_info r found.1 Fields.end in
          let again = read_in s nap.0 in
          let updated = update_connection_status r again nap.1 in
          (
            record m { bluetooth_services = write_in updated.0 nap.0 },
            member "bluetooth" (Json.obj (member "tetheringEnabled" (Json.boolean false) updated.1))
                fs,
          )
    ]

-- `append_connection_status`, with the manager as the remote calls leave it. The interface that the
-- caller uses decides on the last objects.
unfoldable pub append_connection_status :
    Remote → ℕ → Bool → Bool → Manager → Fields → Manager × Fields
unfolding append_wired append_wifi append_wifi_direct append_cellular append_bluetooth
append_connection_status r wired_plugged subscribed with_new_interface m fs =
    let online = connman_manager_is_manager_online r.state_reply m in
    let offline_mode = not (connman_manager_is_manager_available (some online.1)) in
    let head = member "offlineMode" (a_text (if offline_mode then "enabled" else "disabled")) (
      member "isInternetConnectionAvailable" (Json.boolean online.0) (
        member "returnValue" (Json.boolean true)
          (member "subscribed" (Json.boolean subscribed) fs))) in
    let wired = append_wired r wired_plugged online.1 head in
    let wifi = append_wifi r wired.0 wired.1 in
    let p2p = append_wifi_direct r wifi.0 wifi.1 in
    let cellular = append_cellular r p2p.0 p2p.1 in
    let bluetooth = append_bluetooth r cellular.0 cellular.1 in
    if with_new_interface then bluetooth else p2p
