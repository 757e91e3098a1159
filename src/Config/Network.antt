-- ===== src/Config/Network.antt =====
-- `store_network_config` and `store_enterprise_network_config_entries` of src/wifi_setting.c.
use webos_connman_adapter.Base.{
  Bool, true, false, [], ◌∷◌, Option, none, some, if◌then◌else◌, is_empty, Bytes, bytes_eq, codes,
}
use webos_connman_adapter.Platform.{Platform}
use webos_connman_adapter.Profile.State.{State, get_profile_by_ssid_security}
use webos_connman_adapter.Profile.Ops.{delete_profile, create_new_profile}
use webos_connman_adapter.Setting.Store.{build_config_path}
use webos_connman_adapter.Config.KeyFile.{KeyFiles, store_config}
use webos_connman_adapter.Config.Change.{config_group}

-- `connection_settings_t` of src/wifi_service.h, as far as config files go.
pub record Settings : Type 0 where
  pub passkey : Option Bytes
  pub ssid : Option Bytes
  pub hidden : Bool
  pub identity : Option Bytes
  pub eap_type : Option Bytes
  pub ca_cert_file : Option Bytes
  pub client_cert_file : Option Bytes
  pub private_key_file : Option Bytes
  pub private_key_passphrase : Option Bytes
  pub phase2 : Option Bytes
  pub passphrase : Option Bytes

module _ (p : Platform) (g : KeyFiles) where
  -- A string that is there and not empty is set, else the key is removed.
  unfoldable pub set_or_remove : Bytes → Bytes → Option Bytes → g.KeyFile → g.KeyFile
  set_or_remove group key none k = g.remove_key group key k
  set_or_remove group key (some v) k =
      if is_empty v then g.remove_key group key k else g.set_string group key v k

  -- `none` where it answers FALSE.
  unfoldable pub store_enterprise_network_config_entries :
      Bytes → Bytes → Settings → g.KeyFile → Option g.KeyFile
  unfolding set_or_remove
  store_enterprise_network_config_entries group ssid t k = elim t.eap_type [
    | none ↦ none
    | some eap ↦
        let named = g.set_string group (codes "EAP") eap (
          g.set_string group (codes "Security") (codes "ieee8021x") (
            g.set_string group (codes "Name") ssid
              (g.set_string group (codes "Type") (codes "wifi") k))) in
        let certified = set_or_remove group (codes "ClientCertFile") t.client_cert_file (
          set_or_remove group (codes "CACertFile") t.ca_cert_file
            (set_or_remove group (codes "Identity") t.identity named)) in
        let keyed =
          set_or_remove group (codes "PrivateKeyPassphrase") t.private_key_passphrase
            (set_or_remove group (codes "PrivateKeyFile") t.private_key_file certified) in
        some (
          set_or_remove group (codes "Passphrase") t.passphrase
            (set_or_remove group (codes "Phase2") t.phase2 keyed))
  ]

  abbrev set_passkey : Bytes → Bytes → Option Bytes → g.KeyFile → g.KeyFile
  set_passkey group security none k = g.remove_key group (codes "Passphrase") k
  set_passkey group security (some v) k =
      if is_empty v
      then g.remove_key group (codes "Passphrase") k
      else g.set_string group (codes "Security") security
          (g.set_string group (codes "Passphrase") v k)

  -- The entries before those of an enterprise network.
  unfoldable pub network_entries : Bytes → Bytes → Bytes → Settings → g.KeyFile
  network_entries group ssid security t =
      let named =
        g.set_string group (codes "Name") ssid
          (g.set_string group (codes "Type") (codes "wifi") g.new) in
      let keyed = set_passkey group security t.passkey named in
      if t.hidden then g.set_string group (codes "Hidden") (codes "true") keyed else keyed

  -- What is written, where the function comes that far.
  unfoldable pub network_key_file : Bytes → Bytes → Settings → Option g.KeyFile
  unfolding network_entries store_enterprise_network_config_entries
  network_key_file ssid security t =
      let k = network_entries (config_group ssid) ssid security t in
      if bytes_eq security (codes "ieee8021x")
      then store_enterprise_network_config_entries (config_group ssid) ssid t k
      else some k

  -- `none` is the read through NULL in `delete_profile`. The message to the subscribers of
  -- getNetworks is no part of the state.
  unfoldable pub store_network_config :
      (Bytes → Bool) → Settings → Option Bytes → State p.Prefs → Option (Bool × State p.Prefs)
  unfolding network_key_file
  store_network_config can_write t none s = some (false, s)
  store_network_config can_write t (some security) s = elim t.ssid [
    | none ↦ some (false, s)
    | some ssid ↦ elim (network_key_file ssid security t) [
      | none ↦ some (false, s)
      | some k ↦
          let old = get_profile_by_ssid_security (some ssid) (some security) s.wifi_profile_list in
          elim (delete_profile p old s) [
            | none ↦ none
            | some s' ↦
                let created =
                  create_new_profile p (some ssid) (some (security ∷ [])) t.hidden true s' in
                some (
                  store_config p g can_write k (build_config_path p ssid (some security)) created.1)
          ]
    ]
  ]
