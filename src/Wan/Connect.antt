-- ===== src/Wan/Connect.antt =====
-- The connect and disconnect methods of src/wan_service.c, with the callback of the connect call.
use webos_connman_adapter.Base.{
  ℕ, Bool, true, false, List, [], ◌∷◌, Option, none, some, String, if◌then◌else◌, str_eq, is_empty,
  Bytes,
}
use webos_connman_adapter.Common.{
  Reply, ErrorCode, connman_status_check, cellular_technology_status_check, is_cellular_powered,
}
use webos_connman_adapter.Service.State.{Service}
use webos_connman_adapter.Manager.State.{Manager}
use webos_connman_adapter.Connection.Setters.{find_named}
use webos_connman_adapter.Pan.Connect.{ConnectRequest, set_disconnecting}

-- `manager`, the connect calls that have not come back with their requests, the replies with their
-- messages, newest first, and the number of messages received.
pub record Wan : Type 0 where
  pub manager : Option Manager
  pub calls : List ConnectRequest
  pub replies : List (ℕ × Reply)
  pub received : ℕ

abbrev pub answer : ℕ → Reply → Wan → Wan
answer message reply w = record w { replies = (message, reply) ∷ w.replies }

abbrev set_services : Manager → List Service → Wan → Wan
set_services m ss w = record w { manager = some (record m { cellular_services = ss }) }

-- `utf8` has the bytes of a name; the handler passes a name that is there.
unfoldable pub connect_wan_service : (String → Bytes) → Bytes → ℕ → Manager → Wan → Wan
connect_wan_service utf8 name message m w = elim (find_named utf8 name m.cellular_services) [
  | none ↦ answer message (Reply.custom_error ErrorCode.network_not_found) w
  | some s ↦ record (set_services m (set_disconnecting false s.path m.cellular_services) w) {
    calls = record { message = message; service = s.path } ∷ w.calls;
  }
]

-- `works` is whether the remote call works.
unfoldable pub disconnect_wan_service : (String → Bytes) → Bool → Bytes → ℕ → Manager → Wan → Wan
disconnect_wan_service utf8 works name message m w =
    elim (find_named utf8 name m.cellular_services) [
      | none ↦ answer message (Reply.custom_error ErrorCode.network_not_found) w
      | some s ↦
          answer message (if works then Reply.success else Reply.error_unknown)
            (set_services m (set_disconnecting true s.path m.cellular_services) w)
    ]

-- The checks that both methods start with: the reply that is sent where one fails.
unfoldable pub cellular_check : Option Manager → Option Reply
unfolding connman_status_check cellular_technology_status_check is_cellular_powered
cellular_check m = elim (connman_status_check m) [
  | some reply ↦ some reply
  | none ↦ elim (cellular_technology_status_check m) [
    | some reply ↦ some reply
    | none ↦
        if is_cellular_powered m then none else some (Reply.custom_error ErrorCode.wan_switched_off)
  ]
]

-- The part that both methods share; the message has passed its schema.
abbrev handle : (Manager → Wan → Wan) → Bytes → ℕ → Wan → Wan
handle act name message w = elim (cellular_check w.manager) [
  | some reply ↦ answer message reply w
  | none ↦
      if is_empty name
      then answer message Reply.invalid_params w
      else elim w.manager [ none ↦ w | some m ↦ act m w ]
]

unfoldable pub handle_wan_connect_command : (String → Bytes) → Bytes → ℕ → Wan → Wan
unfolding cellular_check connect_wan_service
handle_wan_connect_command utf8 name message w =
    handle (connect_wan_service utf8 name message) name message w

unfoldable pub handle_wan_disconnect_command : (String → Bytes) → Bool → Bytes → ℕ → Wan → Wan
unfolding cellular_check disconnect_wan_service
handle_wan_disconnect_command utf8 works name message w =
    handle (disconnect_wan_service utf8 works name message) name message w

-- A write through the pointer that the request has.
abbrev register_in : String → List Service → List Service
register_in path [] = []
register_in path (s ∷ ss) =
    let rest = register_in path ss in
    if str_eq s.path path then record s { handle_property_change_fn = true } ∷ ss else s ∷ rest

-- The request is that of the call which has come back.
unfoldable pub service_connect_callback : Bool → ConnectRequest → Wan → Wan
service_connect_callback false q w =
    answer q.message (Reply.custom_error ErrorCode.failed_to_connect) w
service_connect_callback true q w =
    let replied = answer q.message Reply.success w in
    elim w.manager as (λ o. Wan) [
      | none ↦ replied
      | some m ↦ set_services m (register_in q.service m.cellular_services) replied
    ]
