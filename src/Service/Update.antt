-- ===== src/Service/Update.antt =====
-- `connman_service_update_display_name`, `connman_service_update_properties`, `property_changed_cb`
-- and `connman_service_new` of src/connman_service.c.
use webos_connman_adapter.Base.{
  ℕ, zero, suc, codes, Bool, true, false, List, [], ◌∷◌, map, Option, none, some, String, str_eq0,
  ◌==◌, if◌then◌else◌, Bytes,
}
use webos_connman_adapter.Utils.Ssid.{convert_ssid_to_utf8}
use webos_connman_adapter.Utils.Prefix.{strip_prefix}
use webos_connman_adapter.Service.Info.{ℤ, pos, blank_ipinfo, blank_proxyinfo, blank_peer}
use webos_connman_adapter.Service.Kind.{unknown, type_of}
use webos_connman_adapter.Service.State.{
  BssInfo, status_sent, Service, no_change, change_findnetworks, change_getstatus, change_both,
  connman_service_set_changed, connman_service_advance_state, connman_service_advance_online_state,
  same_bool,
}

-- An entry of the "BSS" property; a member that is missing is `none`.
pub record BssEntry : Type 0 where
  pub id : Option Bytes
  pub signal : Option ℤ
  pub frequency : Option ℤ

-- The properties of a service at the types that connman's D-Bus interface gives them. `ssid_bytes`
-- is "WiFi.SSID" as a byte string, `ethernet_iface` the members of "Ethernet" with the interface
-- name of each that is "Interface", `other` any property that is not read here.
pub data Property : Type 0 where
  name : String → Property
  ssid_bytes : Bytes → Property
  type : String → Property
  state : String → Property
  strength : ℕ → Property
  security : List String → Property
  auto_connect : Bool → Property
  immutable : Bool → Property
  favorite : Bool → Property
  online : Bool → Property
  run_online_check : Bool → Property
  address : String → Property
  bss : List BssEntry → Property
  ethernet_iface : List (Option String) → Property
  error : String → Property
  ipv6 : Property
  proxy : Property
  other : Property

-- The conversions of GLib, and the locale of the moment. An SSID here has no NUL byte.
pub record Texts : Type 0 where
  pub is_utf8 : Bytes → Bool
  pub g_convert : Bytes → String → Option Bytes
  pub g_convert_with_fallback : Bytes → String → Option Bytes
  pub system_locale : Option String

abbrev or_empty : Option Bytes → Bytes
or_empty none = []
or_empty (some s) = s

abbrev or_zero : Option ℤ → ℤ
or_zero none = pos 0
or_zero (some n) = n

-- `g_strlcpy` into 18 bytes keeps 17.
abbrev take : ℕ → Bytes → Bytes
take zero bs = []
take (suc n) [] = []
take (suc n) (b ∷ bs) = b ∷ take n bs

-- The zeroed structure of `g_new0` with its path and identifier.
abbrev pub blank_service : String → Service
blank_service path = record {
  path = path;
  identifier = strip_prefix (some (codes path)) (some (codes "/net/connman/service/"));
  name = none;
  display_name = none;
  ssid = none;
  state = none;
  error = none;
  address = none;
  strength = 0;
  security = none;
  auto_connect = false;
  disconnecting = false;
  immutable = false;
  favorite = false;
  hidden = false;
  online = false;
  online_checking = false;
  type = unknown;
  bss = none;
  ipinfo = blank_ipinfo;
  hostroutes = none;
  proxyinfo = blank_proxyinfo;
  peer = blank_peer;
  change_mask = no_change;
  handle_property_change_fn = false;
  notices = [];
}

module _ (texts : Texts) where
  unfoldable pub connman_service_update_display_name : Service → Service
  connman_service_update_display_name s = elim s.ssid [
    | none ↦ s
    | some ssid ↦ if texts.is_utf8 ssid then record s { display_name = some ssid } else record s {
      display_name =
          convert_ssid_to_utf8 texts.g_convert texts.g_convert_with_fallback (some ssid)
            texts.system_locale;
    }
  ]

  unfoldable pub bss_info : BssEntry → BssInfo
  bss_info e = record {
    bssid = take 17 (or_empty e.id);
    signal = or_zero e.signal;
    frequency = or_zero e.frequency;
  }

  -- `if (!g_strcmp0 (service->state, "association")) service->hidden = TRUE`.
  abbrev pub mark_hidden : Service → Service
  mark_hidden s = if str_eq0 s.state (some "association") then record s { hidden = true } else s

  -- One round of the loop of `connman_service_update_properties`.
  unfoldable pub update_property : Property → Service → Service
  unfolding connman_service_set_changed connman_service_update_display_name bss_info
  update_property (name n) s =
      let marked = connman_service_set_changed change_both s in
      let s' = if str_eq0 (some n) s.name then s else marked in record s' { name = some n }
  update_property (ssid_bytes b) s =
      connman_service_update_display_name (record s { ssid = some b })
  update_property (type v) s = record s { type = type_of v s.type }
  update_property (state v) s = mark_hidden (connman_service_advance_state v s)
  update_property (strength n) s =
      if n == s.strength
      then s
      else connman_service_set_changed change_findnetworks (record s { strength = n })
  update_property (security v) s = record s { security = some v }
  update_property (auto_connect b) s = record s { auto_connect = b }
  update_property (immutable b) s = record s { immutable = b }
  update_property (favorite b) s = record s { favorite = b }
  update_property (online b) s = connman_service_advance_online_state b s
  update_property (run_online_check b) s = record s { online_checking = b }
  update_property (address a) s = record s { address = some a }
  update_property (bss entries) s = record s { bss = some (map bss_info entries) }
  update_property (ethernet_iface members) s = s
  update_property (error e) s = s
  update_property ipv6 s = s
  update_property proxy s = s
  update_property other s = s

  unfoldable pub connman_service_update_properties : List Property → Service → Service
  connman_service_update_properties [] s = s
  connman_service_update_properties (q ∷ qs) s =
      connman_service_update_properties qs (update_property q s)

  -- `connman_service_new`, where the D-Bus proxy of the path can be made.
  unfoldable pub connman_service_new : String → List Property → Service
  connman_service_new path properties =
      connman_service_update_properties properties (blank_service path)

-- `property_changed_cb` on the properties that it keeps. The requests of P2P peers, which it hands
-- on to a handler without a change of the service, are not among `Property`.
abbrev send_status : Service → Service
send_status s = record s { notices = status_sent ∷ s.notices }

unfoldable pub property_changed_cb : Property → Service → Service
unfolding connman_service_set_changed
property_changed_cb (state v) s = connman_service_advance_state v s
property_changed_cb (strength n) s =
    if n == s.strength
    then s
    else connman_service_set_changed change_findnetworks (record s { strength = n })
property_changed_cb (online b) s = connman_service_advance_online_state b s
property_changed_cb (run_online_check b) s =
    if same_bool s.online_checking b
    then s
    else send_status
        (connman_service_set_changed change_getstatus (record s { online_checking = b }))
property_changed_cb (auto_connect b) s = record s { auto_connect = b }
property_changed_cb (favorite b) s = record s { favorite = b }
property_changed_cb (error e) s = record s { error = some e }
property_changed_cb ipv6 s = send_status (connman_service_set_changed change_getstatus s)
property_changed_cb proxy s = send_status (connman_service_set_changed change_getstatus s)
property_changed_cb _ s = s
