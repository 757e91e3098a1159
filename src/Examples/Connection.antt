-- ===== src/Examples/Connection.antt =====
-- Concrete runs of the status of connections.
use webos_connman_adapter.Base.{
  leb, ◌&&◌, if◌then◌else◌, ◌-◌, zero, suc, Bytes, ℕ, ◌≡◌, refl, ◌⊎◌, Bool, true, false, [], ◌∷◌,
  none, some, codes, length, is_some, ◌++◌,
}
use webos_connman_adapter.Platform.{Json, Fields}
use webos_connman_adapter.Technology.{Technology, blank_technology}
use webos_connman_adapter.Service.Info.{ℤ, pos}
use webos_connman_adapter.Service.Kind.{ServiceType}
use webos_connman_adapter.Service.State.{Service}
use webos_connman_adapter.Service.Details.{Detail, IpMember}
use webos_connman_adapter.Service.Update.{blank_service}
use webos_connman_adapter.Manager.State.{Manager, new_manager}
use webos_connman_adapter.Manager.Connected.{ManagerProperty}
use webos_connman_adapter.Connection.State.{Remote, Shown, Connection}
use webos_connman_adapter.Connection.Reply.{get_connected, append_connection_status}
use webos_connman_adapter.Connection.Changes.{findings_of}
use webos_connman_adapter.Connection.Send.{
  is_same_check, connectionmanager_send_status_to_subscribers,
}
use webos_connman_adapter.Connection.Silence.{blocked_call}
use webos_connman_adapter.Connection.ReplyTyped.{IsReply, append_connection_status-Typed}
use webos_connman_adapter.Wifi.Wps.{IsPin, generate_new_wpspin, generate_new_wpspin_lem}
use webos_connman_adapter.Examples.Network.{texts}

abbrev ascii_upper : ℕ → ℕ
ascii_upper b = if leb 97 b && leb b 122 then b - 32 else b

abbrev ascii_strup : ℕ → Bytes → Bytes
ascii_strup zero bs = []
ascii_strup (suc n) [] = []
ascii_strup (suc n) (b ∷ bs) = ascii_upper b ∷ ascii_strup n bs

abbrev pub remote : Remote
remote = record {
  texts = texts;
  fetch = λ s. some [];
  ip_reply = λ s. some (Detail.ipv4 (IpMember.address (codes "10.0.0.2") ∷ []) ∷ []);
  proxy_reply = λ s. none;
  state_reply = some (ManagerProperty.state "online" ∷ []);
  peers_reply = λ g. none;
  address_reply = λ g. none;
  utf8 = codes;
  ascii_strup = ascii_strup;
  jstring_null = Json.null;
  char_value = ℤ.pos;
}

abbrev pub home : Service
home = record (blank_service "/net/connman/service/wifi_0") {
  state = some "online";
  type = ServiceType.wifi;
  name = some "home";
}

abbrev wlan : Technology
wlan = record (blank_technology "/net/connman/technology/wifi") {
  type = some "wifi";
  powered = true;
}

abbrev pub manager : Manager
manager = record new_manager { wifi_services = home ∷ []; technologies = wlan ∷ [] }

abbrev shown : Shown
shown = record {
  wifi_tethering = false;
  pan_tethering = false;
  online_status = true;
  wifi_connected = true;
  wired_connected = false;
  wired_plugged = 0;
  p2p_connected = false;
  cellular_powered = false;
  pan_connected = false;
  wan_connected = false;
}

abbrev connection : Bool → Connection
connection blocked = record {
  manager = some manager;
  shown = shown;
  wired_online_checking_status = false;
  wifi_online_checking_status = false;
  block_getstatus_response = blocked;
  sent = [];
}

abbrev found : Manager
found = (findings_of remote manager shown).manager

append_connection_status-Typed_example :
    IsReply true (append_connection_status remote 0 true true manager Fields.end).1
append_connection_status-Typed_example = append_connection_status-Typed remote 0 true true manager

blocked_call_example :
    let c = connection true in
    let wired = (get_connected remote manager.wired_services).0 in
    let wifi = (get_connected remote manager.wifi_services).0 in
    let same_wired = is_same_check wired c.wired_online_checking_status in
    let same_wifi = is_same_check wifi c.wifi_online_checking_status in
    let t = connectionmanager_send_status_to_subscribers remote c in
    (wired ≡ none → wifi ≡ none → length t.sent ≡ suc (length c.sent))
    × ((is_some wired ≡ true) ⊎ (is_some wifi ≡ true)
        → same_wired ≡ true
        → same_wifi ≡ true
        → length t.sent ≡ length c.sent)
    × ((same_wired ≡ false) ⊎ (same_wifi ≡ false) → length t.sent ≡ suc (length c.sent))
    × (t.shown ≡ c.shown)
blocked_call_example = blocked_call remote (connection true) manager refl refl

generate_new_wpspin_example :
    (p : ℕ) × (generate_new_wpspin true ((none ∷ []) ++ some 12345678 ∷ []) ≡ some (pos p))
    × IsPin p
generate_new_wpspin_example = generate_new_wpspin_lem (none ∷ []) [] 12345678 refl
