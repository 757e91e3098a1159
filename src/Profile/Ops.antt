-- ===== src/Profile/Ops.antt =====
-- The operations of src/wifi_profile.c that change the list. Each ends by storing it.
use webos_connman_adapter.Base.{
  ℕ, ◌+◌, ◌%◌, ◌^◌, Bool, false, List, [], ◌∷◌, ◌++◌, Option, none, some, ◌==◌, if◌then◌else◌,
  Bytes,
}
use webos_connman_adapter.Platform.{Platform}
use webos_connman_adapter.Profile.State.{Profile, State, is_listed, unlink, security_0}
use webos_connman_adapter.Setting.Store.{store_wifi_setting, remove_network_config}

-- `first_profile_id` is the initial value of `gprofile_id`.
abbrev pub first_profile_id : ℕ
first_profile_id = 777

-- The first loop of `delete_all_profiles_except_one`: it prepends.
unfoldable pub collect_others : ℕ → List Profile → List Profile → List Profile
collect_others id [] acc = acc
collect_others id (q ∷ qs) acc = collect_others id qs (if q.profile_id == id then acc else q ∷ acc)

-- `node == wifi_profile_list`.
abbrev pub is_head : ℕ → List Profile → Bool
is_head address [] = false
is_head address (q ∷ qs) = q.address == address

module _ (p : Platform) where
  -- The static variables as the program starts, over a preference store and config files.
  abbrev pub initial_state : p.Prefs → (Bytes → Option Bytes) → State p.Prefs
  initial_state prefs files = record {
    wifi_profile_list = [];
    gprofile_id = first_profile_id;
    next_address = 1;
    prefs = prefs;
    files = files;
  }

  abbrev pub new_profile : Bytes → Option (List Bytes) → Bool → Bool → State p.Prefs → Profile
  new_profile ssid security hidden configured s = record {
    address = s.next_address;
    profile_id = s.gprofile_id;
    ssid = ssid;
    hidden = hidden;
    security = security;
    configured = configured;
  }

  -- `gprofile_id` is a `guint`: it wraps at 2 ^ 32.
  unfoldable pub append_profile : Profile → State p.Prefs → State p.Prefs
  append_profile profile s = record s {
    wifi_profile_list = s.wifi_profile_list ++ profile ∷ [];
    gprofile_id = (s.gprofile_id + 1) % 2 ^ 32;
    next_address = s.next_address + 1;
  }

  -- `none` is the NULL that is returned without a ssid.
  unfoldable pub create_new_profile :
      Option Bytes
      → Option (List Bytes)
      → Bool
      → Bool
      → State p.Prefs
      → Option Profile × State p.Prefs
  unfolding append_profile
  create_new_profile none security hidden configured s = (none, s)
  create_new_profile (some ssid) security hidden configured s =
      let profile = new_profile ssid security hidden configured s in
      (some profile, (store_wifi_setting p (append_profile profile s)).1)

  -- `none` is the read of `security[0]` through a NULL `security`.
  unfoldable pub remove_config_of : Profile → State p.Prefs → Option (State p.Prefs)
  remove_config_of profile s = elim profile.security [
    | none ↦ if profile.configured then none else some s
    | some ss ↦
        if profile.configured
        then some (remove_network_config p profile.ssid (security_0 ss) s).1
        else some s
  ]

  unfoldable pub delete_profile : Option Profile → State p.Prefs → Option (State p.Prefs)
  unfolding remove_config_of
  delete_profile none s = some s
  delete_profile (some profile) s =
      let s' = record s { wifi_profile_list = unlink profile.address s.wifi_profile_list } in
      elim (remove_config_of profile s') [
        | none ↦ none
        | some s'' ↦ some (store_wifi_setting p s'').1
      ]

  -- The second loop.
  unfoldable pub delete_profiles : List Profile → State p.Prefs → Option (State p.Prefs)
  delete_profiles [] s = some s
  delete_profiles (q ∷ qs) s = elim (delete_profile (some q) s) [
    | none ↦ none
    | some s' ↦ delete_profiles qs s'
  ]

  unfoldable pub delete_all_profiles_except_one : ℕ → State p.Prefs → Option (State p.Prefs)
  unfolding collect_others delete_profiles
  delete_all_profiles_except_one id s = delete_profiles (collect_others id s.wifi_profile_list []) s

  unfoldable pub move_profile_to_head : Option Profile → State p.Prefs → State p.Prefs
  move_profile_to_head none s = s
  move_profile_to_head (some profile) s =
      let moved = record s {
        wifi_profile_list = profile ∷ unlink profile.address s.wifi_profile_list;
      } in
      if is_head profile.address s.wifi_profile_list
      then s
      else if is_listed profile.address s.wifi_profile_list
      then (store_wifi_setting p moved).1
      else (store_wifi_setting p s).1
