-- ===== src/Profile/State.antt =====
-- The static variables of src/wifi_profile.c with what their users change besides: the preference
-- store and the config files. The lookups of the profile list.
use webos_connman_adapter.Base.{
  ℕ, zero, suc, length, Bool, true, false, ◌&&◌, List, [], ◌∷◌, Option, none, some, ◌==◌,
  if◌then◌else◌, Bytes, bytes_eq, bytes_eq0,
}

-- `wifi_profile_t`. `address` is the pointer by which the list finds a profile. A `GStrv` is the
-- list of its strings, `security` may be NULL.
pub record Profile : Type 0 where
  pub address : ℕ
  pub profile_id : ℕ
  pub ssid : Bytes
  pub hidden : Bool
  pub security : Option (List Bytes)
  pub configured : Bool

-- `next_address` is where `g_new0` puts the next profile; `files` are the config files by path.
pub record State (Prefs : Type 0) : Type 0 where
  pub wifi_profile_list : List Profile
  pub gprofile_id : ℕ
  pub next_address : ℕ
  pub prefs : Prefs
  pub files : Bytes → Option Bytes

-- The first profile that a test accepts: the shape of the three lookups.
abbrev pub find_profile : (Profile → Bool) → List Profile → Option Profile
find_profile test [] = none
find_profile test (p ∷ ps) = if test p then some p else find_profile test ps

unfoldable pub get_profile_by_id : ℕ → List Profile → Option Profile
get_profile_by_id id = find_profile λ p. p.profile_id == id

unfoldable pub get_profile_by_ssid : Option Bytes → List Profile → Option Profile
get_profile_by_ssid none ps = none
get_profile_by_ssid (some ssid) ps = find_profile (λ p. bytes_eq p.ssid ssid) ps

-- The inner loop of `get_profile_by_ssid_security`; `security` may be NULL.
abbrev pub has_security : Option Bytes → List Bytes → Bool
has_security security [] = false
has_security security (s ∷ ss) =
    let rest = has_security security ss in if bytes_eq0 (some s) security then true else rest

abbrev pub accepts_security : Option Bytes → Option (List Bytes) → Bool
accepts_security security none = true
accepts_security security (some ss) = has_security security ss

unfoldable pub get_profile_by_ssid_security :
    Option Bytes → Option Bytes → List Profile → Option Profile
get_profile_by_ssid_security none security ps = none
get_profile_by_ssid_security (some ssid) security ps =
    find_profile (λ p. bytes_eq p.ssid ssid && accepts_security security p.security) ps

unfoldable pub profile_list_is_empty : List Profile → Bool
profile_list_is_empty [] = true
profile_list_is_empty (p ∷ ps) = false

-- The first node of the list behind a pointer.
abbrev pub after : ℕ → List Profile → List Profile
after address [] = []
after address (p ∷ ps) = if p.address == address then ps else after address ps

abbrev pub first : List Profile → Option Profile
first [] = none
first (p ∷ ps) = some p

-- The argument is NULL or a profile's pointer.
unfoldable pub get_next_profile : Option ℕ → List Profile → Option Profile
get_next_profile none ps = first ps
get_next_profile (some address) ps = first (after address ps)

-- The loop `profile = get_next_profile (profile)` of src/wifi_setting.c from a profile on. The list
-- does not change in the loop, and `length` of it is fuel enough where pointers are distinct.
unfoldable pub profiles_from : ℕ → Option Profile → List Profile → List Profile
unfolding get_next_profile
profiles_from zero q ps = []
profiles_from (suc n) none ps = []
profiles_from (suc n) (some q) ps = q ∷ profiles_from n (get_next_profile (some q.address) ps) ps

unfoldable pub profiles_in_order : List Profile → List Profile
unfolding profiles_from
profiles_in_order ps = profiles_from (length ps) (get_next_profile none ps) ps

-- `g_slist_find`, and `g_slist_delete_link` of what it finds.
abbrev pub is_listed : ℕ → List Profile → Bool
is_listed address [] = false
is_listed address (p ∷ ps) = if p.address == address then true else is_listed address ps

abbrev pub unlink : ℕ → List Profile → List Profile
unlink address [] = []
unlink address (p ∷ ps) = if p.address == address then ps else p ∷ unlink address ps

-- `security[0]`: the first string, or the NULL at the end.
abbrev pub security_0 : List Bytes → Option Bytes
security_0 [] = none
security_0 (s ∷ ss) = some s
