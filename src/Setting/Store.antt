-- ===== src/Setting/Store.antt =====
-- The way out: `add_wifi_profile`, `add_wifi_profile_list`, `store_wifi_setting`,
-- `build_config_path` and `remove_network_config` of src/wifi_setting.c.
use webos_connman_adapter.Base.{
  Bool, true, false, List, ◌++◌, map, Option, none, some, is_some, if◌then◌else◌, Bytes, bytes_eq,
  codes,
}
use webos_connman_adapter.Platform.{
  Json, Fields, member, items_of, Platform, Removal, removed, no_such_key, failed,
}
use webos_connman_adapter.Setting.Cipher.{prefs_id, wifi_setting_encrypt}
use webos_connman_adapter.Profile.State.{Profile, State, profile_list_is_empty, profiles_in_order}

-- The members that `add_wifi_profile` puts, in its order; the last is put if `security` is there.
abbrev security_field : Option (List Bytes) → Fields
security_field none = Fields.end
security_field (some ss) = member "security" (Json.arr (items_of (map Json.text ss))) Fields.end

unfoldable pub add_wifi_profile : Profile → Json
add_wifi_profile profile =
    let security = security_field profile.security in
    let configured =
      if profile.configured
      then member "configured" (Json.boolean profile.configured) security
      else security in
    let hidden =
      if profile.hidden
      then member "wasCreatedWithJoinOther" (Json.boolean profile.hidden) configured
      else configured in
    Json.obj (
      member "ssid" (Json.text profile.ssid)
        (member "profileId" (Json.number profile.profile_id) hidden))

-- `%s` prints NULL as "(null)".
abbrev pub shown : Option Bytes → Bytes
shown none = codes "(null)"
shown (some s) = s

module _ (p : Platform) where
  abbrev pub jstring_create : Option Bytes → Json
  jstring_create none = p.jstring_null
  jstring_create (some s) = Json.text s

  -- One element of the array: the encrypted text of the profile under "wifiProfile".
  unfoldable pub encode_profile : Profile → Json
  encode_profile profile = Json.obj (
      member "wifiProfile"
        (jstring_create
          (wifi_setting_encrypt p (some (p.to_string (add_wifi_profile profile))) prefs_id))
        Fields.end)

  unfoldable pub add_wifi_profile_list : List Profile → Option Bytes
  unfolding encode_profile
  add_wifi_profile_list ps =
      let list = Json.arr (items_of (map encode_profile (profiles_in_order ps))) in
      let document = Json.obj (member "profileList" list Fields.end) in
      if profile_list_is_empty ps
      then none
      else if p.schema_parses
      then some (p.to_string document)
      else none

  abbrev pub may_set : Removal → Bool
  may_set removed = true
  may_set no_such_key = true
  may_set failed = false

  -- The end of the case of `store_wifi_setting`, after the removal.
  unfoldable pub set_profile_list : Option Bytes → p.Prefs → Bool × p.Prefs
  set_profile_list none prefs = (false, prefs)
  set_profile_list (some text) prefs = p.set_value text prefs

  -- `store_wifi_setting (WIFI_PROFILELIST_SETTING, NULL)`, the one setting that there is.
  unfoldable pub store_wifi_setting : State p.Prefs → Bool × State p.Prefs
  unfolding set_profile_list
  store_wifi_setting s =
      let (removal, prefs) = p.remove_value s.prefs in
      let (ok, prefs') = set_profile_list (add_wifi_profile_list s.wifi_profile_list) prefs in
      if p.get_handle s.prefs
      then (if may_set removal
          then (ok, record s { prefs = prefs' })
          else (false, record s { prefs = prefs }))
      else (false, s)

  unfoldable pub build_config_path : Bytes → Option Bytes → Bytes
  build_config_path ssid security =
      p.config_dir
      ++ (codes "/wifi_" ++ (ssid ++ (codes "_" ++ (shown security ++ codes ".config"))))

  -- `g_unlink` of the config file; the result tells whether there was one.
  unfoldable pub remove_network_config : Bytes → Option Bytes → State p.Prefs → Bool × State p.Prefs
  remove_network_config ssid security s =
      let path = build_config_path ssid security in
      (
        is_some (s.files path),
        record s { files = λ f. if bytes_eq f path then none else s.files f },
      )
