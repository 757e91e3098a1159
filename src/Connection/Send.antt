-- ===== src/Connection/Send.antt =====
-- `connectionmanager_send_status_to_subscribers` and its callers in
-- src/connectionmanager_service.c.
use webos_connman_adapter.Base.{
  Bool, true, false, ◌&&◌, not, ◌∷◌, Option, none, some, if◌then◌else◌,
}
use webos_connman_adapter.Platform.{Fields}
use webos_connman_adapter.Service.State.{
  Service, change_getstatus, connman_service_set_changed, same_bool,
}
use webos_connman_adapter.Manager.State.{Manager}
use webos_connman_adapter.Manager.Connected.{write_in}
use webos_connman_adapter.Connection.State.{Remote, Connection}
use webos_connman_adapter.Connection.Reply.{get_connected, append_connection_status}
use webos_connman_adapter.Connection.Changes.{check_update_is_needed}

-- Is the online check of the service unchanged? There is no service: nothing to compare.
abbrev pub is_same_check : Option Service → Bool → Bool
is_same_check none status = true
is_same_check (some s) status = same_bool s.online_checking status

abbrev pub check_of : Option Service → Bool → Bool
check_of none status = status
check_of (some s) status = s.online_checking

-- Whether the function returns early. With no connected service it does not.
abbrev pub is_skipped : Option Service → Option Service → Bool → Bool → Bool
is_skipped none none wired_status wifi_status = false
is_skipped wired wifi wired_status wifi_status =
    is_same_check wired wired_status && is_same_check wifi wifi_status

-- The block for a status that is blocked or has not changed: return early?
unfoldable pub check_online_checking : Remote → Manager → Connection → Bool × Connection
check_online_checking r m c =
    let wired = get_connected r m.wired_services in
    let wifi = get_connected r m.wifi_services in
    (
      is_skipped wired.0 wifi.0 c.wired_online_checking_status c.wifi_online_checking_status,
      record c {
        manager = some (record m { wired_services = wired.1; wifi_services = wifi.1 });
        wired_online_checking_status = check_of wired.0 c.wired_online_checking_status;
        wifi_online_checking_status = check_of wifi.0 c.wifi_online_checking_status;
      },
    )

-- The two replies, the second without the objects of the new interface.
unfoldable pub send_status : Remote → Connection → Connection
unfolding append_connection_status
send_status r c = elim c.manager [
  | none ↦ c
  | some m ↦
      let plugged = c.shown.wired_plugged in
      let full = append_connection_status r plugged true true m Fields.end in
      let deprecated = append_connection_status r plugged true false full.0 Fields.end in
      record c { manager = some deprecated.0; sent = (deprecated.1, full.1) ∷ c.sent }
]

-- The condition of the outer `if`: with a blocked status nothing is checked.
abbrev pub is_held : Remote → Connection → Bool × Connection
is_held r c =
    let checked = check_update_is_needed r c in
    if c.block_getstatus_response then (true, c) else (not checked.0, checked.1)

unfoldable pub connectionmanager_send_status_to_subscribers : Remote → Connection → Connection
unfolding check_update_is_needed check_online_checking send_status
connectionmanager_send_status_to_subscribers r c =
    let held = is_held r c in
    elim held.1.manager [
      | none ↦ c
      | some m ↦
          let skipped = check_online_checking r m held.1 in
          if held.0
          then (if skipped.0 then skipped.1 else send_status r skipped.1)
          else send_status r held.1
    ]

-- The timer of `handle_check_internet_status_command`.
unfoldable pub send_updated_internet_status : Connection → Connection
send_updated_internet_status c = record c { block_getstatus_response = false }

-- `local_address` is whether the changed property of the group is "LocalAddress".
unfoldable pub group_property_changed_callback : Remote → Bool → Connection → Connection
unfolding connectionmanager_send_status_to_subscribers
group_property_changed_callback r local_address c = elim c.manager [
  | none ↦ c
  | some m ↦
      let found = get_connected r m.p2p_services in
      let fetched = record c { manager = some (record m { p2p_services = found.1 }) } in
      elim found.0 [
        | none ↦ if local_address then fetched else c
        | some s ↦
            let marked = connman_service_set_changed change_getstatus s in
            let c' = record c {
              manager = some (record m { p2p_services = write_in marked found.1 });
            } in
            if local_address then connectionmanager_send_status_to_subscribers r c' else c
      ]
]
