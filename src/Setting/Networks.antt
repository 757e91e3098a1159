-- ===== src/Setting/Networks.antt =====
-- The profile list seen without ids and pointers: what of it is stored and comes back.
use mathlib.Core.List.{map-append}
use webos_connman_adapter.Base.{
  ◌≡◌, refl, ap, ◌∙◌, sym, Bool, true, false, ◌&&◌, List, [], ◌∷◌, ◌++◌, map, Option, none, some,
  is_some, if◌then◌else◌, Bytes, bytes_eq, arith,
}
use webos_connman_adapter.Platform.{Platform}
use webos_connman_adapter.Profile.State.{
  Profile, State, find_profile, accepts_security, security_0, get_profile_by_ssid,
  get_profile_by_ssid_security,
}
use webos_connman_adapter.Profile.Ops.{create_new_profile, new_profile, append_profile}
use webos_connman_adapter.Setting.Store.{store_wifi_setting}
use webos_connman_adapter.Setting.Load.{is_new}

-- The id and the address of a profile are given anew when it is loaded.
pub record Network : Type 0 where
  pub ssid : Bytes
  pub hidden : Bool
  pub security : Option (List Bytes)
  pub configured : Bool

abbrev pub network : Profile → Network
network q = record {
  ssid = q.ssid;
  hidden = q.hidden;
  security = q.security;
  configured = q.configured;
}

abbrev pub networks : List Profile → List Network
networks = map network

any_network : (Network → Bool) → List Network → Bool
any_network test [] = false
any_network test (n ∷ ns) = if test n then true else any_network test ns

find_profile-networks :
    (test : Network → Bool) (ps : List Profile)
    → is_some (find_profile (λ q. test (network q)) ps) ≡ any_network test (networks ps)
unfolding any_network
find_profile-networks test [] = refl
find_profile-networks test (q ∷ qs) = ground (arith, find_profile-networks test qs)

-- Whether a network is new does not depend on ids and pointers.
pub is_new-networks :
    (ssid : Bytes) (security : Option (List Bytes)) (ps qs : List Profile)
    → networks ps ≡ networks qs
    → is_new (some ssid) security ps ≡ is_new (some ssid) security qs
unfolding get_profile_by_ssid get_profile_by_ssid_security
is_new-networks ssid none ps qs e =
    let test = λ (n : Network). bytes_eq n.ssid ssid in
    cc (find_profile-networks test ps, find_profile-networks test qs)
is_new-networks ssid (some ss) ps qs e =
    let test =
      λ (n : Network). bytes_eq n.ssid ssid && accepts_security (security_0 ss) n.security in
    cc (find_profile-networks test ps, find_profile-networks test qs)

-- No profile stands for the network of one that comes after it, after the ones given before.
abbrev pub IsLoadable : List Profile → List Profile → Type 0
IsLoadable before [] = Unit
IsLoadable before (q ∷ qs) =
    (is_new (some q.ssid) q.security before ≡ true) × IsLoadable (before ++ q ∷ []) qs

module _ (p : Platform) where
  pub store_wifi_setting-list :
      (s : State p.Prefs) → (store_wifi_setting p s).1.wifi_profile_list ≡ s.wifi_profile_list
  unfolding store_wifi_setting
  store_wifi_setting-list s = ground arith

  pub create_new_profile-list :
      (ssid : Bytes) (security : Option (List Bytes)) (hidden configured : Bool) (s : State p.Prefs)
      → (create_new_profile p (some ssid) security hidden configured s).1.wifi_profile_list
        ≡ s.wifi_profile_list ++ new_profile p ssid security hidden configured s ∷ []
  unfolding create_new_profile append_profile
  create_new_profile-list ssid security hidden configured s =
      store_wifi_setting-list (append_profile p (new_profile p ssid security hidden configured s) s)

  -- A profile made from another one's settings adds that one's network to the list.
  pub create_new_profile-networks :
      (q : Profile) (s : State p.Prefs) (before : List Profile)
      → networks s.wifi_profile_list ≡ networks before
      → networks
          (create_new_profile p
            (some q.ssid)
            q.security
            q.hidden
            q.configured
            s).1.wifi_profile_list
        ≡ networks (before ++ q ∷ [])
  create_new_profile-networks q s before e =
      rw (create_new_profile-list q.ssid q.security q.hidden q.configured s) (
        map-append network s.wifi_profile_list _
        ∙ ap (λ ns. ns ++ network q ∷ []) e
        ∙ sym (map-append network before (q ∷ [])))
