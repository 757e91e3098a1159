-- ===== src/Connection/State.antt =====
-- The state of src/connectionmanager_service.c: its globals, and what it asks of connman.
use webos_connman_adapter.Base.{ℕ, Bool, List, Option, none, some, String, Bytes}
use webos_connman_adapter.Platform.{Json, Fields, member}
use webos_connman_adapter.Service.Info.{ℤ}
use webos_connman_adapter.Service.State.{Service}
use webos_connman_adapter.Service.Update.{Texts, Property}
use webos_connman_adapter.Service.Details.{Detail}
use webos_connman_adapter.Group.{Group, GroupProperty}
use webos_connman_adapter.Manager.State.{Manager}
use webos_connman_adapter.Manager.Connected.{ManagerProperty, PeerEntry}

-- What connman answers at the moment, `none` where a call fails: `fetch` to
-- `connman_service_fetch_properties`, `ip_reply` and `proxy_reply` to "GetProperties" of a service,
-- `state_reply` to "GetProperties" of the manager, `peers_reply` to "GetPeers", `address_reply` to
-- "GetProperties" of a group. `utf8` has the bytes of a text, `jstring_null` is what
-- `jstring_create` makes of NULL, `char_value` a byte read as a `char`; `ascii_strup` is
-- `g_ascii_strup` with the length first.
pub record Remote : Type 0 where
  pub texts : Texts
  pub fetch : Service → Option (List Property)
  pub ip_reply : Service → Option (List Detail)
  pub proxy_reply : Service → Option (List Detail)
  pub state_reply : Option (List ManagerProperty)
  pub peers_reply : Group → Option (List PeerEntry)
  pub address_reply : Group → Option (List GroupProperty)
  pub utf8 : String → Bytes
  pub ascii_strup : ℕ → Bytes → Bytes
  pub jstring_null : Json
  pub char_value : ℕ → ℤ

-- What subscribers were told last: the globals from `online_status` to `wired_plugged`, which holds
-- a count.
pub record Shown : Type 0 where
  pub wifi_tethering : Bool
  pub pan_tethering : Bool
  pub online_status : Bool
  pub wifi_connected : Bool
  pub wired_connected : Bool
  pub wired_plugged : ℕ
  pub p2p_connected : Bool
  pub cellular_powered : Bool
  pub pan_connected : Bool
  pub wan_connected : Bool

-- `block_getstatus_response` is whether the timer runs; `sent` has the pairs of messages to the
-- subscribers of "getstatus" and "getStatus", newest first.
pub record Connection : Type 0 where
  pub manager : Option Manager
  pub shown : Shown
  pub wired_online_checking_status : Bool
  pub wifi_online_checking_status : Bool
  pub block_getstatus_response : Bool
  pub sent : List (Fields × Fields)

-- `jobject_put` of a string that may be NULL, guarded by a test for NULL.
abbrev pub put_text : String → Option Bytes → Fields → Fields
put_text key none fs = fs
put_text key (some v) fs = member key (Json.text v) fs

abbrev pub text_or : Json → Option Bytes → Json
text_or missing none = missing
text_or missing (some v) = Json.text v

abbrev pub utf8_of : Remote → Option String → Option Bytes
utf8_of r none = none
utf8_of r (some s) = some (r.utf8 s)
