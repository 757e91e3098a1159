-- ===== src/Setting/Load.antt =====
-- The way in: `populate_wifi_profile` and `load_wifi_setting` of src/wifi_setting.c.
use webos_connman_adapter.Base.{
  Bool, true, false, not, List, [], ◌∷◌, map, Option, none, some, if◌then◌else◌, is_some, Bytes,
  String,
}
use webos_connman_adapter.Platform.{Json, list_of, jobject_get, Platform}
use webos_connman_adapter.Setting.Cipher.{prefs_id, wifi_setting_decrypt}
use webos_connman_adapter.Profile.State.{
  Profile, State, security_0, get_profile_by_ssid, get_profile_by_ssid_security,
}
use webos_connman_adapter.Profile.Ops.{create_new_profile}

-- A `GStrv` ends at its first NULL.
abbrev pub until_null : List (Option Bytes) → List Bytes
until_null [] = []
until_null (none ∷ ss) = []
until_null (some s ∷ ss) = s ∷ until_null ss

-- The test before `create_new_profile`: no profile stands for the network yet.
abbrev pub is_new : Option Bytes → Option (List Bytes) → List Profile → Bool
is_new ssid none ps = not (is_some (get_profile_by_ssid ssid ps))
is_new ssid (some ss) ps = not (is_some (get_profile_by_ssid_security ssid (security_0 ss) ps))

module _ (p : Platform) where
  -- `jdom_parse` under the schema "{}". A text that is the JSON null is refused by `jis_null` in the
  -- C code; here it is an object without members, which the callers refuse too.
  abbrev pub parse_document : Option Bytes → Option Json
  parse_document text = if p.schema_parses then p.parse text else none

  abbrev pub string_member : String → Json → Option Bytes
  string_member key j = elim (jobject_get key j) [ none ↦ none | some v ↦ p.jstring_get v ]

  abbrev pub boolean_member : String → Json → Bool
  boolean_member key j = elim (jobject_get key j) [ none ↦ false | some v ↦ p.jboolean_get v false ]

  abbrev pub security_member : Json → Option (List Bytes)
  security_member j = elim (jobject_get "security" j) [
    | none ↦ none
    | some v ↦ some (until_null (map p.jstring_get (p.jarray_items v)))
  ]

  -- What `populate_wifi_profile` does with the decrypted document.
  unfoldable pub populate_from : Json → State p.Prefs → Bool × State p.Prefs
  populate_from j s =
      let ssid = string_member "ssid" j in
      let security = security_member j in
      let hidden = boolean_member "wasCreatedWithJoinOther" j in
      let configured = boolean_member "configured" j in
      let created = (create_new_profile p ssid security hidden configured s).1 in
      (
        is_some (jobject_get "ssid" j),
        if is_new ssid security s.wifi_profile_list then created else s,
      )

  unfoldable pub populate_wifi_profile : Json → State p.Prefs → Bool × State p.Prefs
  populate_wifi_profile profile_obj s = elim (jobject_get "wifiProfile" profile_obj) [
    | none ↦ (false, s)
    | some v ↦
        let text = wifi_setting_decrypt p (p.jstring_get v) prefs_id in
        elim (parse_document text) [ none ↦ (false, s) | some j ↦ populate_from j s ]
  ]

  -- The loop of `load_wifi_setting`: it stops at the first profile that is refused.
  unfoldable pub populate_all : List Json → State p.Prefs → Bool × State p.Prefs
  populate_all [] s = (true, s)
  populate_all (j ∷ js) s =
      let (ok, s') = populate_wifi_profile j s in
      let rest = populate_all js s' in if ok then rest else (false, s')

  -- The value of "profileList".
  unfoldable pub load_profile_list : Option Json → State p.Prefs → Bool × State p.Prefs
  load_profile_list (some (Json.arr items)) s = populate_all (list_of items) s
  load_profile_list _ s = (false, s)

  -- `load_wifi_setting (WIFI_PROFILELIST_SETTING, NULL)`.
  unfoldable pub load_wifi_setting : State p.Prefs → Bool × State p.Prefs
  load_wifi_setting s =
      if p.get_handle s.prefs
      then elim (p.copy_value s.prefs) [
        | none ↦ (false, s)
        | some value ↦ elim (parse_document (some value)) [
          | none ↦ (false, s)
          | some j ↦ load_profile_list (jobject_get "profileList" j) s
        ]
      ]
      else (false, s)

  -- `init_wifi_profile_list` of src/wifi_profile.c.
  unfoldable pub init_wifi_profile_list : State p.Prefs → State p.Prefs
  unfolding load_wifi_setting
  init_wifi_profile_list s = (load_wifi_setting s).1
