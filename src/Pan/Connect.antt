-- ===== src/Pan/Connect.antt =====
-- The connect and disconnect methods of src/pan_service.c, with the callback of the connect call and
-- the timeout that looks for the reason of a failure.
use webos_connman_adapter.Base.{
  ℕ, suc, Bool, true, false, List, [], ◌∷◌, Option, none, some, String, str_eq, str_eq0,
  if◌then◌else◌, is_some, Bytes, bytes_eq,
}
use webos_connman_adapter.Common.{
  Reply, ErrorCode, connman_status_check, bluetooth_technology_status_check, is_bluetooth_powered,
}
use webos_connman_adapter.Service.State.{Service}
use webos_connman_adapter.Service.Update.{connman_service_update_properties}
use webos_connman_adapter.Manager.State.{Manager}
use webos_connman_adapter.Manager.Lookup.{
  connman_manager_find_service_by_path, connman_manager_find_bluetooth_technology,
}
use webos_connman_adapter.Manager.Connected.{write_in}
use webos_connman_adapter.Connection.State.{Remote}
use webos_connman_adapter.Connection.Reply.{get_connected}

-- `luna_service_request_t`: the message, and the path of the service that `user_data` points to.
pub record ConnectRequest : Type 0 where
  pub message : ℕ
  pub service : String

-- `manager`, `current_connect_req`, the connect calls that have not come back, the timeouts that run,
-- the replies with their messages, newest first, and the number of messages received.
pub record Pan : Type 0 where
  pub manager : Option Manager
  pub current_connect_req : Option ConnectRequest
  pub calls : ℕ
  pub timeouts : ℕ
  pub replies : List (ℕ × Reply)
  pub received : ℕ

-- The first may be NULL; `strup` is `g_ascii_strup`.
unfoldable pub compare_address : (ℕ → Bytes → Bytes) → Option Bytes → Bytes → Bool
compare_address strup none second = false
compare_address strup (some first) second = bytes_eq (strup 17 first) (strup 17 second)

abbrev address_of : (String → Bytes) → Service → Option Bytes
address_of utf8 s = elim s.address [ none ↦ none | some a ↦ some (utf8 a) ]

-- The loop of `connect_pan_with_address`.
unfoldable pub find_address : Remote → Bytes → List Service → Option Service
unfolding compare_address
find_address r address [] = none
find_address r address (s ∷ ss) =
    let rest = find_address r address ss in
    if compare_address r.ascii_strup (address_of r.utf8 s) address then some s else rest

abbrev pub answer : ℕ → Reply → Pan → Pan
answer message reply p = record p { replies = (message, reply) ∷ p.replies }

-- `connman_service_connect` and `connman_service_disconnect` write into the service.
abbrev pub set_disconnecting : Bool → String → List Service → List Service
set_disconnecting b path [] = []
set_disconnecting b path (s ∷ ss) =
    let rest = set_disconnecting b path ss in
    if str_eq s.path path then record s { disconnecting = b } ∷ ss else s ∷ rest

abbrev set_services : Manager → List Service → Pan → Pan
set_services m ss p = record p { manager = some (record m { bluetooth_services = ss }) }

-- The part of `connect_pan_with_address` for the service with the address.
unfoldable pub connect_service : Remote → Service → ℕ → Manager → Pan → Pan
connect_service r s message m p =
    let found = get_connected r m.bluetooth_services in
    let asked = record (set_services m (set_disconnecting false s.path found.1) p) {
      current_connect_req = some (record { message = message; service = s.path });
      calls = suc p.calls;
    } in
    if elim found.0 as (λ o. Bool) [ none ↦ false | some c ↦ str_eq c.path s.path ]
    then answer message Reply.success (set_services m found.1 p)
    else asked

unfoldable pub connect_pan_with_address : Remote → Bytes → ℕ → Pan → Pan
unfolding connect_service find_address connman_manager_find_bluetooth_technology
connect_pan_with_address r address message p =
    if is_some (connman_manager_find_bluetooth_technology p.manager)
    then (if is_some p.current_connect_req
        then answer message (Reply.custom_error ErrorCode.already_connecting) p
        else elim p.manager as (λ o. Pan) [
          | none ↦ p
          | some m ↦ elim (find_address r address m.bluetooth_services) as (λ o. Pan) [
            | none ↦ answer message (Reply.custom_error ErrorCode.network_not_found) p
            | some s ↦ connect_service r s message m p
          ]
        ])
    else answer message (Reply.custom_error ErrorCode.internal) p

-- The checks that both methods start with: the reply that is sent where one fails.
unfoldable pub bluetooth_check : Option Manager → Option Reply
unfolding connman_status_check bluetooth_technology_status_check is_bluetooth_powered
bluetooth_check m = elim (connman_status_check m) [
  | some reply ↦ some reply
  | none ↦ elim (bluetooth_technology_status_check m) [
    | some reply ↦ some reply
    | none ↦
        if is_bluetooth_powered m
        then none
        else some (Reply.custom_error ErrorCode.bluetooth_switched_off)
  ]
]

-- The message has passed its schema.
unfoldable pub handle_pan_connect_command : Remote → Bytes → ℕ → Pan → Pan
unfolding bluetooth_check connect_pan_with_address
handle_pan_connect_command r address message p = elim (bluetooth_check p.manager) [
  | some reply ↦ answer message reply p
  | none ↦ connect_pan_with_address r address message p
]

-- `works` is whether the remote call to disconnect works.
unfoldable pub handle_pan_disconnect_command : Remote → Bool → Bytes → ℕ → Pan → Pan
unfolding bluetooth_check compare_address
handle_pan_disconnect_command r works address message p = elim (bluetooth_check p.manager) [
  | some reply ↦ answer message reply p
  | none ↦ elim p.manager [
    | none ↦ p
    | some m ↦
        let found = get_connected r m.bluetooth_services in
        let absent =
          answer message (Reply.custom_error ErrorCode.no_service_connected)
            (set_services m found.1 p) in
        elim found.0 [
          | none ↦ absent
          | some s ↦
              if compare_address r.ascii_strup (address_of r.utf8 s) address
              then answer message
                  (if works then Reply.success else Reply.custom_error ErrorCode.disconnect_failed)
                  (set_services m (set_disconnecting true s.path found.1) p)
              else absent
        ]
  ]
]

-- The reply to the current request, which is over then.
abbrev pub finish : ConnectRequest → Reply → Pan → Pan
finish q reply p = record (answer q.message reply p) { current_connect_req = none }

unfoldable pub service_connect_callback : Bool → Pan → Pan
service_connect_callback success p = elim p.current_connect_req [
  | none ↦ p
  | some q ↦ if success then finish q Reply.success p else record p { timeouts = suc p.timeouts }
]

abbrev failure_code : Option String → ErrorCode
failure_code error =
    if str_eq0 error (some "connect-failed")
    then ErrorCode.connect_failed
    else if str_eq0 error (some "dhcp-failed")
    then ErrorCode.dhcp_failed
    else ErrorCode.unknown

-- The function has no result, by which GLib decides whether the timeout runs again: the histories
-- in Pan/Answers have both.
unfoldable pub handle_failed_connection_request : Remote → Pan → Pan
handle_failed_connection_request r p = elim p.manager [
  | none ↦ p
  | some m ↦ elim p.current_connect_req [
    | none ↦ p
    | some q ↦ elim (connman_manager_find_service_by_path m.bluetooth_services (some q.service)) [
      | none ↦ finish q (Reply.custom_error ErrorCode.unknown) p
      | some s ↦ elim (r.fetch s) [
        | none ↦ finish q (Reply.custom_error ErrorCode.unknown) p
        | some ps ↦
            let updated = connman_service_update_properties r.texts ps s in
            finish q (Reply.custom_error (failure_code updated.error))
              (set_services m (write_in updated m.bluetooth_services) p)
      ]
    ]
  ]
]
