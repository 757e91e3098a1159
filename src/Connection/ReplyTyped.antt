-- ===== src/Connection/ReplyTyped.antt =====
-- The reply to getstatus: the types of the members that src/connectionmanager_service.c puts in.
use webos_connman_adapter.Base.{
  ℕ, ◌≡◌, refl, sym, ap, ◌∙◌, subst, inl, inr, Bool, true, false, not, List, some, String, Bytes,
  bytes_eq, codes, if◌then◌else◌, Bool-cases, Option-cases, arith, ◌==◌,
}
use webos_connman_adapter.Platform.{Json, Items, Fields, member, find_field}
use webos_connman_adapter.Common.{
  is_wifi_powered, is_wifi_tethering, is_bluetooth_tethering, is_cellular_powered,
}
use webos_connman_adapter.Service.State.{Service}
use webos_connman_adapter.Manager.State.{Manager}
use webos_connman_adapter.Manager.Connected.{connman_manager_is_manager_online}
use webos_connman_adapter.Manager.Lookup.{connman_manager_is_manager_available}
use webos_connman_adapter.Wan.Status.{append_wan_status}
use webos_connman_adapter.Connection.State.{Remote}
use webos_connman_adapter.Connection.Message.{a_text, update_connection_status}
use webos_connman_adapter.Connection.P2p.{append_p2p_connection_status}
use webos_connman_adapter.Connection.Reply.{
  get_connected, get_connected_if, append_wired, append_wifi, append_wifi_direct, append_cellular,
  append_nap_info, append_bluetooth, append_connection_status, read_in,
}
use webos_connman_adapter.Connection.DirectTyped.{IsDirect, append_p2p-IsDirect}
use webos_connman_adapter.Connection.Typed.{
  Kind, is_text, is_boolean, is_object, Typed, status_kind, IsStatus, member-IsStatus,
  update_connection_status-IsStatus,
}

-- The kinds of the reply: objects, but for the members named here.
abbrev pub reply_kind : Bytes → Kind
reply_kind k =
    if bytes_eq k (codes "subscribed")
    then is_boolean
    else if bytes_eq k (codes "returnValue")
    then is_boolean
    else if bytes_eq k (codes "isInternetConnectionAvailable")
    then is_boolean
    else if bytes_eq k (codes "offlineMode")
    then is_text
    else is_object

-- The object `fs'` is `fs` and a member that is an object with the property.
abbrev pub Adds : (Fields → Type 0) → String → Fields → Fields → Type 0
Adds P key fs fs' = (gs : Fields) × (fs' ≡ member key (Json.obj gs) fs) × P gs

abbrev apart : Fields
apart = member "state" (a_text "disconnected") Fields.end

append_wired-Adds :
    (r : Remote) (n : ℕ) (m : Manager) (fs : Fields)
    → Adds IsStatus "wired" fs (append_wired r n m fs).1
unfolding append_wired
append_wired-Adds r n m fs = elim (Option-cases (get_connected r m.wired_services).0) [
  | inl e ↦ (
    member "plugged" (Json.boolean (not (n == 0))) apart,
    rw (append_wired, e) refl,
    ((refl, (refl, tt)), inr refl),
  )
  | inr (s, e) ↦ (
    member "plugged" (Json.boolean true) (update_connection_status r s Fields.end).1,
    rw (append_wired, e) refl,
    member-IsStatus "plugged" (Json.boolean true) (update_connection_status r s Fields.end).1 refl
        refl (update_connection_status-IsStatus r s Fields.end tt),
  )
]

append_wifi-Adds :
    (r : Remote) (m : Manager) (fs : Fields) → Adds IsStatus "wifi" fs (append_wifi r m fs).1
unfolding append_wifi
append_wifi-Adds r m fs =
    elim (Option-cases (get_connected_if (is_wifi_powered (some m)) r m.wifi_services).0) [
      | inl e ↦ (
        member "tetheringEnabled" (Json.boolean (is_wifi_tethering (some m))) apart,
        rw (append_wifi, e) refl,
        ((refl, (refl, tt)), inr refl),
      )
      | inr (s, e) ↦ (
        (update_connection_status r s Fields.end).1,
        rw (append_wifi, e) refl,
        update_connection_status-IsStatus r s Fields.end tt,
      )
    ]

append_nap_info-Typed :
    (r : Remote) (ss : List Service) → Typed status_kind (append_nap_info r ss Fields.end).1
unfolding append_nap_info
append_nap_info-Typed r ss = elim (Option-cases (get_connected r ss).0) [
  | inl e ↦ rw (Typed, e) tt
  | inr (s, e) ↦ rw (Typed, e) (refl, tt)
]

append_bluetooth-Adds :
    (r : Remote) (m : Manager) (fs : Fields)
    → Adds IsStatus "bluetooth" fs (append_bluetooth r m fs).1
unfolding append_bluetooth
append_bluetooth-Adds r m fs =
    let found = get_connected r m.bluetooth_services in
    let nap = append_nap_info r found.1 Fields.end in
    elim (Option-cases found.0) [
      | inl e ↦ (
        member "tetheringEnabled" (Json.boolean (is_bluetooth_tethering (some m))) apart,
        rw (append_bluetooth, e) refl,
        ((refl, (refl, tt)), inr refl),
      )
      | inr (s, e) ↦
          let gs = (update_connection_status r (read_in s nap.0) nap.1).1 in
          (
            member "tetheringEnabled" (Json.boolean false) gs,
            rw (append_bluetooth, e) refl,
            member-IsStatus "tetheringEnabled" (Json.boolean false) gs refl refl (
                update_connection_status-IsStatus r (read_in s nap.0) nap.1
                  (append_nap_info-Typed r found.1)),
          )
    ]

append_wifi_direct-Adds :
    (r : Remote) (m : Manager) (fs : Fields)
    → Adds IsDirect "wifiDirect" fs (append_wifi_direct r m fs).1
unfolding append_wifi_direct
append_wifi_direct-Adds r m fs =
    let found = get_connected_if (is_wifi_powered (some m)) r m.p2p_services in
    elim (Option-cases found.0) [
      | inl e ↦ (apart, rw (append_wifi_direct, e) refl, ((refl, tt), inr refl))
      | inr (s, e) ↦
          let m' = record m { p2p_services = found.1 } in
          (
            (append_p2p_connection_status r s m' Fields.end).1,
            rw (append_wifi_direct, e) refl,
            append_p2p-IsDirect r s m',
          )
    ]

-- The members of "cellular" and "wan" are put in front as objects.
append_cellular-Adds :
    (r : Remote) (m : Manager) (fs : Fields)
    → (gs hs : Fields) × ((append_cellular r m fs).1
        ≡ member "wan" (Json.obj hs) (member "cellular" (Json.obj gs) fs))
unfolding append_cellular
append_cellular-Adds r m fs = elim (Bool-cases (is_cellular_powered (some m))) [
  | inl e ↦ (
    member "enabled" (Json.boolean (is_cellular_powered (some m))) Fields.end,
    (append_wan_status r m.cellular_services Fields.end).1,
    rw (append_cellular, e) refl,
  )
  | inr e ↦ (
    member "enabled" (Json.boolean (is_cellular_powered (some m))) Fields.end,
    member "connectedContexts" (Json.arr Items.nil)
        (member "connected" (Json.boolean false) Fields.end),
    rw (append_cellular, e) refl,
  )
]

-- A member that is an object with the property.
abbrev pub Has : (Fields → Type 0) → String → Fields → Type 0
Has P key fs = (gs : Fields) × (find_field (codes key) fs ≡ some (Json.obj gs)) × P gs

abbrev pub IsReply : Bool → Fields → Type 0
IsReply new reply =
    Typed reply_kind reply
    × Has IsStatus "wired" reply
    × Has IsStatus "wifi" reply
    × Has IsDirect "wifiDirect" reply
    × (new ≡ true → Has IsStatus "bluetooth" reply)

-- In the reply to getstatus "subscribed", "returnValue" and "isInternetConnectionAvailable" are
-- booleans, "offlineMode" is a string and every other member an object. "wired" and "wifi" are
-- there, "state" in them is "connected" or "disconnected", their members "plugged",
-- "tetheringEnabled", "isWakeOnWifiEnabled" and "checkingInternet" are booleans, "nap" is an object,
-- "ipv6" an object of strings with a number "prefixLength" at most, "proxyinfo" an object of strings
-- with string arrays "servers" and "excludes" at most, and all others are strings; so is "bluetooth"
-- in the reply on the new interface. "wifiDirect" is there with such a "state", its member
-- "connectedPeers" is an array and all others are strings. The names are those of the code; nothing
-- is said of members that are missing, nor of those within "cellular", "wan", "nap" and
-- "connectedPeers".
pub append_connection_status-Typed :
    (r : Remote) (n : ℕ) (subscribed new : Bool) (m : Manager)
    → IsReply new (append_connection_status r n subscribed new m Fields.end).1
unfolding append_connection_status
append_connection_status-Typed r n subscribed new m =
    let online = connman_manager_is_manager_online r.state_reply m in
    let offline_mode = not (connman_manager_is_manager_available (some online.1)) in
    let head = member "offlineMode" (a_text (if offline_mode then "enabled" else "disabled")) (
      member "isInternetConnectionAvailable" (Json.boolean online.0) (
        member "returnValue" (Json.boolean true)
          (member "subscribed" (Json.boolean subscribed) Fields.end))) in
    let wired = append_wired r n online.1 head in
    let wifi = append_wifi r wired.0 wired.1 in
    let p2p = append_wifi_direct r wifi.0 wifi.1 in
    let cellular = append_cellular r p2p.0 p2p.1 in
    let (g1, e1, h1) = append_wired-Adds r n online.1 head in
    let (g2, e2, h2) = append_wifi-Adds r wired.0 wired.1 in
    let (g3, e3, h3) = append_wifi_direct-Adds r wifi.0 wifi.1 in
    let (g4, g5, e4) = append_cellular-Adds r p2p.0 p2p.1 in
    let (g6, e6, h6) = append_bluetooth-Adds r cellular.0 cellular.1 in
    let reply = (append_connection_status r n subscribed new m Fields.end).1 in
    let short =
      e3 ∙ ap (member "wifiDirect" (Json.obj g3)) (e2 ∙ ap (member "wifi" (Json.obj g2)) e1) in
    let long =
      e6
      ∙ ap (member "bluetooth" (Json.obj g6))
          (e4 ∙ ap (λ fs. member "wan" (Json.obj g5) (member "cellular" (Json.obj g4) fs)) short) in
    elim (Bool-cases new) [
      | inl e ↦
          let on_new : reply ≡ (append_bluetooth r cellular.0 cellular.1).1 =
            rw (append_connection_status, e) refl in
          subst (IsReply new) (sym (on_new ∙ long)) (
            (refl, (refl, (refl, (refl, (refl, (refl, (refl, (refl, (refl, (refl, tt)))))))))),
            (g1, refl, h1),
            (g2, refl, h2),
            (g3, refl, h3),
            λ h. (g6, refl, h6),
          )
      | inr e ↦
          let on_old : reply ≡ p2p.1 = rw (append_connection_status, e) refl in
          subst (IsReply new) (sym (on_old ∙ short)) (
            (refl, (refl, (refl, (refl, (refl, (refl, (refl, tt))))))),
            (g1, refl, h1),
            (g2, refl, h2),
            (g3, refl, h3),
            λ h. absurd (ground (arith, e, h)),
          )
    ]
