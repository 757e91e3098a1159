-- ===== src/Pan/Tethering.antt =====
-- `set_bluetooth_tethering` and `handle_pan_set_tethering_command` of src/pan_service.c, with the
-- setters of src/connman_technology.c that they call.
use webos_connman_adapter.Base.{
  Bool, true, false, not, ◌&&◌, List, [], ◌∷◌, Option, none, some, str_eq0, if◌then◌else◌,
}
use webos_connman_adapter.Technology.{Technology}
use webos_connman_adapter.Common.{
  Reply, ErrorCode, connman_status_check, bluetooth_technology_status_check, is_bluetooth_powered,
  is_bluetooth_tethering,
}
use webos_connman_adapter.Service.State.{Service, same_bool}
use webos_connman_adapter.Manager.State.{Manager}
use webos_connman_adapter.Manager.Lookup.{connman_manager_find_bluetooth_technology}
use webos_connman_adapter.Connection.State.{Remote}
use webos_connman_adapter.Connection.Reply.{get_connected}
use webos_connman_adapter.Pan.Connect.{set_disconnecting}

-- What connman answers to a property that is set; `not_supported` is the error whose message says so.
pub data Answer : Type 0 where
  done not_supported failed : Answer

-- With NULL for `not_supported`, as src/pan_service.c calls it: `none` is a write through it.
unfoldable pub connman_technology_set_powered :
    Answer → Bool → Technology → Option (Bool × Technology)
connman_technology_set_powered answer state t =
    if same_bool state t.powered then some (true, t) else elim answer [
      | Answer.done ↦ some (true, record t { powered = state })
      | Answer.not_supported ↦ none
      | Answer.failed ↦ some (false, t)
    ]

unfoldable pub connman_technology_set_tethering : Answer → Bool → Technology → Bool × Technology
connman_technology_set_tethering Answer.done state t = (true, record t { tethering = state })
connman_technology_set_tethering Answer.not_supported state t = (false, t)
connman_technology_set_tethering Answer.failed state t = (false, t)

-- A write through the pointer that `connman_manager_find_bluetooth_technology` gives.
abbrev pub write_bluetooth : Technology → List Technology → List Technology
write_bluetooth u [] = []
write_bluetooth u (t ∷ ts) =
    let rest = write_bluetooth u ts in
    if str_eq0 (some "bluetooth") t.type then u ∷ ts else t ∷ rest

-- A connected service is disconnected before the tethering starts.
abbrev services_for : Remote → Bool → List Service → List Service
services_for r false ss = ss
services_for r true ss =
    let found = get_connected r ss in
    elim found.0 [ none ↦ found.1 | some s ↦ set_disconnecting true s.path found.1 ]

unfoldable pub set_bluetooth_tethering :
    Remote → Answer → Answer → Bool → Manager → Option (Bool × Manager)
unfolding connman_technology_set_powered connman_technology_set_tethering
set_bluetooth_tethering r power answer state m =
    let asleep = not (is_bluetooth_powered (some m)) && state in
    if same_bool state (is_bluetooth_tethering (some m))
    then some (false, m)
    else elim (connman_manager_find_bluetooth_technology (some m)) [
      | none ↦ some (false, m)
      | some t ↦
          let woken =
            if asleep then connman_technology_set_powered power true t else some (true, t) in
          elim woken as (λ o. Option (Bool × Manager)) [
            | none ↦ none
            | some w ↦
                let set = connman_technology_set_tethering answer state w.1 in
                some (
                  set.0,
                  record m {
                    bluetooth_services = services_for r state m.bluetooth_services;
                    technologies = write_bluetooth set.1 m.technologies;
                  },
                )
          ]
    ]

-- The message has passed its schema.
unfoldable pub handle_pan_set_tethering_command :
    Remote → Answer → Answer → Bool → Option Manager → Option (Reply × Option Manager)
unfolding set_bluetooth_tethering connman_status_check bluetooth_technology_status_check
handle_pan_set_tethering_command r power answer enabled o =
    let tethering = is_bluetooth_tethering o in
    elim (connman_status_check o) [
      | some reply ↦ some (reply, o)
      | none ↦ elim (bluetooth_technology_status_check o) [
        | some reply ↦ some (reply, o)
        | none ↦
            if enabled && tethering
            then some (Reply.custom_error ErrorCode.already_enabled, o)
            else if not enabled && not tethering
            then some (Reply.custom_error ErrorCode.already_disabled, o)
            else elim o [
              | none ↦ some (Reply.custom_error ErrorCode.tethering_disable_failed, none)
              | some m ↦ elim (set_bluetooth_tethering r power answer enabled m) [
                | none ↦ none
                | some (ok, m') ↦ some (
                  if ok
                      then Reply.success
                      else if enabled
                      then Reply.custom_error ErrorCode.tethering_enable_failed
                      else Reply.custom_error ErrorCode.tethering_disable_failed,
                  some m',
                )
              ]
            ]
      ]
    ]
