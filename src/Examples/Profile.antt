-- ===== src/Examples/Profile.antt =====
-- Runs of the profile list of src/wifi_profile.c, stored by src/wifi_setting.c.
use webos_connman_adapter.Base.{
  ◌≡◌, refl, true, false, [], ◌∷◌, none, some, codes, keep, ◌==◌, arith,
}
use webos_connman_adapter.Profile.State.{
  Profile, State, profile_list_is_empty, profiles_in_order, get_profile_by_ssid,
  get_profile_by_ssid_security,
}
use webos_connman_adapter.Profile.Ops.{create_new_profile, delete_all_profiles_except_one}
use webos_connman_adapter.Profile.Distinct.{Distinct, address_of, profiles_in_order_lem}
use webos_connman_adapter.Profile.Invariant.{Inv, create_new_profile-Inv}
use webos_connman_adapter.Profile.Deletion.{delete_all_profiles_except_one_lem}
use webos_connman_adapter.Setting.Store.{store_wifi_setting, add_wifi_profile_list}
use webos_connman_adapter.Setting.Networks.{networks}
use webos_connman_adapter.Setting.Load.{load_wifi_setting}
use webos_connman_adapter.Setting.RoundTrip.{load-store}
use webos_connman_adapter.Examples.Host.{host, host-Documented}

-- A network at home, configured by the user, and one joined by its name.
abbrev pub home : Profile
home = record {
  address = 1;
  profile_id = 777;
  ssid = codes "home";
  hidden = false;
  security = some (codes "psk" ∷ []);
  configured = true;
}

abbrev pub cafe : Profile
cafe = record {
  address = 2;
  profile_id = 778;
  ssid = codes "cafe";
  hidden = true;
  security = none;
  configured = false;
}

abbrev pub two : State host.Prefs
two = record {
  wifi_profile_list = home ∷ cafe ∷ [];
  gprofile_id = 779;
  next_address = 3;
  prefs = none;
  files = λ path. none;
}

pub two-Distinct : Distinct address_of two.wifi_profile_list
two-Distinct = (((λ e. cc), tt), (tt, tt))

two-Inv : Inv two
two-Inv = (
  ((omega arith, omega arith), ((omega arith, omega arith), tt)),
  (((omega arith), tt), (tt, tt)),
  (((omega arith), tt), (tt, tt)),
)

-- The same preferences at the next start of the program.
abbrev restarted : State host.Prefs
restarted = record {
  wifi_profile_list = [];
  gprofile_id = 777;
  next_address = 1;
  prefs = (store_wifi_setting host two).1.prefs;
  files = λ path. none;
}

create_new_profile-Inv_example :
    Inv (create_new_profile host (some (codes "work")) none false false two).1
create_new_profile-Inv_example =
    create_new_profile-Inv host (some (codes "work")) none false false two two-Inv (omega arith)

delete_all_profiles_except_one_example :
    (t : State host.Prefs) × (delete_all_profiles_except_one host 778 two ≡ some t)
    × (t.wifi_profile_list ≡ keep (λ r. r.profile_id == 778) two.wifi_profile_list)
delete_all_profiles_except_one_example =
    delete_all_profiles_except_one_lem host 778 two two-Distinct ((λ e. refl), ((λ e. cc), tt))

profiles_in_order_example : profiles_in_order two.wifi_profile_list ≡ two.wifi_profile_list
profiles_in_order_example = profiles_in_order_lem two.wifi_profile_list two-Distinct

load-store_example :
    ((load_wifi_setting host restarted).0 ≡ true)
    × (networks (load_wifi_setting host restarted).1.wifi_profile_list
        ≡ networks two.wifi_profile_list)
unfolding get_profile_by_ssid get_profile_by_ssid_security store_wifi_setting add_wifi_profile_list
    profile_list_is_empty
load-store_example =
    load-store host two restarted host-Documented refl two-Distinct (refl, (refl, tt)) refl refl
      refl
