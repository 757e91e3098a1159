-- ===== src/Config/Change.antt =====
-- `change_network_passphrase`, `change_network_ipv4`, `change_network_dns` and
-- `change_network_remove_entry` of src/wifi_setting.c.
use webos_connman_adapter.Base.{
  ◌+◌, ◌*◌, Bool, false, List, [], ◌∷◌, ◌++◌, Option, none, some, if◌then◌else◌, ltb, length, Bytes,
  codes,
}
use webos_connman_adapter.Platform.{Platform}
use webos_connman_adapter.Profile.State.{State}
use webos_connman_adapter.Setting.Store.{build_config_path}
use webos_connman_adapter.Config.KeyFile.{KeyFiles, store_config, load_config}

-- The group of a network.
abbrev pub config_group : Bytes → Bytes
config_group ssid = codes "service_" ++ ssid

-- "%s/%s/%s".
abbrev pub slashed : Bytes → Bytes → Bytes → Bytes
slashed a b c = a ++ (codes "/" ++ (b ++ (codes "/" ++ c)))

-- The loop of `change_network_dns`: the servers with commas between them.
unfoldable pub dns_string : List Bytes → Bytes
dns_string [] = []
dns_string (d ∷ []) = d
dns_string (d ∷ e ∷ ds) = d ++ (codes "," ++ dns_string (e ∷ ds))

-- The buffer of `g_strnfill (16 * (num_elems + 1), 0)` has room for that many bytes and a NUL.
abbrev pub fits : List Bytes → Bool
fits ds = ltb (length (dns_string ds)) (16 * (length ds + 1) + 1)

module _ (p : Platform) (g : KeyFiles) (can_write : Bytes → Bool) where
  -- The body that the functions share: the file is read, its key file changed, and written.
  unfoldable pub change_config :
      (g.KeyFile → g.KeyFile) → Bytes → Bytes → State p.Prefs → Bool × State p.Prefs
  unfolding load_config store_config
  change_config change ssid security s =
      let path = build_config_path p ssid (some security) in
      elim (load_config p g path s) [
        | none ↦ (false, s)
        | some k ↦ store_config p g can_write (change k) path s
      ]

  -- The strings may be NULL.
  unfoldable pub change_network_passphrase :
      Option Bytes → Option Bytes → Option Bytes → State p.Prefs → Bool × State p.Prefs
  unfolding change_config
  change_network_passphrase (some ssid) (some security) (some passphrase) s =
      change_config (g.set_string (config_group ssid) (codes "Passphrase") passphrase) ssid security
        s
  change_network_passphrase _ _ _ s = (false, s)

  unfoldable pub change_network_ipv4 :
      Option Bytes
      → Option Bytes
      → Option Bytes
      → Option Bytes
      → Option Bytes
      → State p.Prefs
      → Bool × State p.Prefs
  unfolding change_config
  change_network_ipv4 (some ssid) (some security) (some address) (some netmask) (some gateway) s =
      change_config
        (g.set_string (config_group ssid) (codes "IPv4") (slashed address netmask gateway)) ssid
        security s
  change_network_ipv4 _ _ _ _ _ s = (false, s)

  -- As `change_network_ipv4`, with the prefix length as a string.
  unfoldable pub change_network_ipv6 :
      Option Bytes
      → Option Bytes
      → Option Bytes
      → Option Bytes
      → Option Bytes
      → State p.Prefs
      → Bool × State p.Prefs
  unfolding change_config
  change_network_ipv6 (some ssid) (some security) (some address) (some prefix_len) (some gateway)
        s =
      change_config
        (g.set_string (config_group ssid) (codes "IPv6") (slashed address prefix_len gateway)) ssid
        security s
  change_network_ipv6 _ _ _ _ _ s = (false, s)

  -- `none` is a write past the end of the buffer.
  unfoldable pub change_network_dns :
      Option Bytes
      → Option Bytes
      → Option (List Bytes)
      → State p.Prefs
      → Option (Bool × State p.Prefs)
  unfolding change_config load_config
  change_network_dns (some ssid) (some security) (some dns) s =
      let path = build_config_path p ssid (some security) in
      let changed =
        change_config (g.set_string (config_group ssid) (codes "Nameservers") (dns_string dns)) ssid
          security s in
      elim (load_config p g path s) [
        | none ↦ some (false, s)
        | some k ↦ if fits dns then some changed else none
      ]
  change_network_dns _ _ _ s = some (false, s)

  unfoldable pub change_network_remove_entry :
      Option Bytes → Option Bytes → Option Bytes → State p.Prefs → Bool × State p.Prefs
  unfolding change_config
  change_network_remove_entry (some ssid) (some security) (some key) s =
      change_config (g.remove_key (config_group ssid) key) ssid security s
  change_network_remove_entry _ _ _ s = (false, s)
