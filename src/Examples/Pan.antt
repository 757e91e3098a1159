-- ===== src/Examples/Pan.antt =====
-- A connection to a bluetooth device, asked for and pending.
use webos_connman_adapter.Base.{◌≡◌, ◌≢◌, not, refl, ◌⊎◌, true, [], ◌∷◌, some, codes, Bytes}
use webos_connman_adapter.Technology.{Technology, blank_technology}
use webos_connman_adapter.Service.State.{Service}
use webos_connman_adapter.Service.Kind.{ServiceType, connman_service_get_state}
use webos_connman_adapter.Service.Update.{blank_service}
use webos_connman_adapter.Manager.State.{Manager, new_manager}
use webos_connman_adapter.Manager.Lookup.{connman_manager_get_connected_service}
use webos_connman_adapter.Pan.Connect.{ConnectRequest, Pan, handle_pan_connect_command}
use webos_connman_adapter.Pan.Answers.{receive, initial}
use webos_connman_adapter.Common.{Reply, is_bluetooth_powered, is_bluetooth_tethering}
use webos_connman_adapter.Manager.Connected.{update_first_connected}
use webos_connman_adapter.Pan.Tethering.{Answer, handle_pan_set_tethering_command}
use webos_connman_adapter.Pan.Switched.{handle_pan_set_tethering_command_lem}
use webos_connman_adapter.Examples.Connection.{remote}

abbrev device : Service
device = record (blank_service "/net/connman/service/bluetooth_0") {
  state = some "idle";
  type = ServiceType.bluetooth;
  address = some "aa:bb:cc:dd:ee:ff";
}

abbrev adapter : Technology
adapter = record (blank_technology "/net/connman/technology/bluetooth") {
  type = some "bluetooth";
  powered = true;
}

abbrev manager : Manager
manager = record new_manager { bluetooth_services = device ∷ []; technologies = adapter ∷ [] }

abbrev address : Bytes
address = codes "AA:BB:CC:DD:EE:FF"

-- connman appears, and the message comes.
abbrev pending : Pan
pending =
    receive
      (handle_pan_connect_command remote address 0 (record initial { manager = some manager }))

abbrev request : ConnectRequest
request = record { message = 0; service = device.path }

abbrev switched : Manager
switched = record manager { technologies = record adapter { tethering = true } ∷ [] }

handle_pan_set_tethering_command_example :
    ((Reply.success ≡ Reply.success)
      × (is_bluetooth_tethering (some switched) ≡ true)
      × (is_bluetooth_tethering (some manager) ≡ not true))
    ⊎ ((Reply.success ≢ Reply.success)
        × (is_bluetooth_tethering (some switched) ≡ is_bluetooth_tethering (some manager)))
unfolding handle_pan_set_tethering_command is_bluetooth_tethering is_bluetooth_powered
    connman_manager_get_connected_service connman_service_get_state update_first_connected
handle_pan_set_tethering_command_example =
    handle_pan_set_tethering_command_lem remote Answer.done Answer.done true manager Reply.success
      (some switched) refl
