-- ===== src/Config/Kept.antt =====
-- What a change of a config file writes and what it keeps.
use webos_connman_adapter.Base.{
  ◌*◌, ◌≤◌, ◌≡◌, refl, ◌∙◌, inl, inr, Bool, true, false, ◌&&◌, List, [], ◌∷◌, ◌++◌, Option, none,
  some, is_empty, length, length-append, All, Bytes, bytes_eq, bytes_eq_refl, codes, Option-cases,
  arith,
}
use webos_connman_adapter.Platform.{Platform}
use webos_connman_adapter.Profile.State.{State}
use webos_connman_adapter.Setting.Store.{build_config_path}
use webos_connman_adapter.Config.KeyFile.{KeyFiles, DocumentedKeys, store_config, load_config}
use webos_connman_adapter.Config.Change.{
  config_group, slashed, dns_string, fits, change_config, change_network_ipv4, change_network_dns,
  change_network_remove_entry,
}

module _ (p : Platform) (g : KeyFiles) (documented : DocumentedKeys g) where
  -- A file with a value in it, written, is read with the same values; other files stay.
  pub load-store_config :
      (can_write : Bytes → Bool) (k : g.KeyFile) (path : Bytes) (s : State p.Prefs)
      → is_empty (g.to_data k) ≡ false
      → can_write path ≡ true
      → let (ok, t) = store_config p g can_write k path s in
        (ok ≡ true)
        × ((k' : g.KeyFile) × (load_config p g path t ≡ some k')
            × ((group key : Bytes) → g.get_string group key k' ≡ g.get_string group key k))
        × ((f : Bytes) → bytes_eq f path ≡ false → t.files f ≡ s.files f)
        × (t.wifi_profile_list ≡ s.wifi_profile_list)
  unfolding store_config load_config
  load-store_config can_write k path s full w =
      let (k', loaded, same) = documented.load-to_data k in
      rw (full, w, load_config, bytes_eq_refl path)
        (refl, (k', loaded, same), λ f e. rw e refl, refl)

  change_config-read :
      (can_write : Bytes → Bool) (change : g.KeyFile → g.KeyFile) (ssid security : Bytes)
      (k : g.KeyFile) (s : State p.Prefs)
      → load_config p g (build_config_path p ssid (some security)) s ≡ some k
      → change_config p g can_write change ssid security s
        ≡ store_config p g can_write (change k) (build_config_path p ssid (some security)) s
  unfolding change_config
  change_config-read can_write change ssid security k s read = rw (change_config, read) refl

  -- Where the config file of a network can be read and written, and GLib admits the group of the
  -- network with the value: after `change_network_ipv4` the file holds "address/netmask/gateway"
  -- under "IPv4" of this group, and under every other group or key what it held; the other files
  -- and the profiles are as before, and the function answers TRUE.
  pub change_network_ipv4_lem :
      (can_write : Bytes → Bool) (ssid security address netmask gateway : Bytes) (k : g.KeyFile)
      (s : State p.Prefs)
      → load_config p g (build_config_path p ssid (some security)) s ≡ some k
      → can_write (build_config_path p ssid (some security)) ≡ true
      → g.admits (config_group ssid) (codes "IPv4") (slashed address netmask gateway) ≡ true
      → let path = build_config_path p ssid (some security) in
        let group = config_group ssid in
        let (ok, t) =
          change_network_ipv4 p g can_write
            (some ssid)
            (some security)
            (some address)
            (some netmask)
            (some gateway)
            s in
        (ok ≡ true)
        × ((k' : g.KeyFile) × (load_config p g path t ≡ some k')
            × (g.get_string group (codes "IPv4") k' ≡ some (slashed address netmask gateway))
            × ((other_group other : Bytes)
                → bytes_eq other_group group && bytes_eq other (codes "IPv4") ≡ false
                → g.get_string other_group other k' ≡ g.get_string other_group other k))
        × ((f : Bytes) → bytes_eq f path ≡ false → t.files f ≡ s.files f)
        × (t.wifi_profile_list ≡ s.wifi_profile_list)
  unfolding change_network_ipv4
  change_network_ipv4_lem can_write ssid security address netmask gateway k s read w admitted =
      let group = config_group ssid in
      let v = slashed address netmask gateway in
      let key = codes "IPv4" in
      let set = g.set_string group key v k in
      let full =
        documented.to_data-ne group key v set (documented.get-set group key v k admitted) in
      let (ok, (k', loaded, same), others, profiles) =
        load-store_config can_write set (build_config_path p ssid (some security)) s full w in
      let stored : change_network_ipv4 p g can_write (some ssid) (some security) (some address)
            (some netmask) (some gateway) s
          ≡ store_config p g can_write set (build_config_path p ssid (some security)) s =
        change_config-read can_write (g.set_string group key v) ssid security k s read in
      rw stored (
        ok,
        (
          k',
          loaded,
          same group key ∙ documented.get-set group key v k admitted,
          λ other_group other e.
              same other_group other ∙ documented.get-set_other group key v other_group other k e,
        ),
        others,
        profiles,
      )

  -- As `change_network_remove_entry` goes: the key is gone, where another key holds a value; the
  -- rest stays as for `change_network_ipv4`.
  pub change_network_remove_entry_lem :
      (can_write : Bytes → Bool) (ssid security key other v : Bytes) (k : g.KeyFile)
      (s : State p.Prefs)
      → load_config p g (build_config_path p ssid (some security)) s ≡ some k
      → can_write (build_config_path p ssid (some security)) ≡ true
      → bytes_eq other key ≡ false
      → g.get_string (config_group ssid) other k ≡ some v
      → let path = build_config_path p ssid (some security) in
        let (ok, t) =
          change_network_remove_entry p g can_write (some ssid) (some security) (some key) s in
        (ok ≡ true)
        × ((k' : g.KeyFile) × (load_config p g path t ≡ some k')
            × (g.get_string (config_group ssid) key k' ≡ none)
            × (g.get_string (config_group ssid) other k' ≡ some v))
        × ((f : Bytes) → bytes_eq f path ≡ false → t.files f ≡ s.files f)
  unfolding change_network_remove_entry
  change_network_remove_entry_lem can_write ssid security key other v k s read w apart held =
      let group = config_group ssid in
      let rest = g.remove_key group key k in
      let kept =
        documented.get-remove_other group key group other k (ground (arith, apart)) ∙ held in
      let full = documented.to_data-ne group other v rest kept in
      let (ok, (k', loaded, same), others, profiles) =
        load-store_config can_write rest (build_config_path p ssid (some security)) s full w in
      let stored : change_network_remove_entry p g can_write (some ssid) (some security) (some key)
            s
          ≡ store_config p g can_write rest (build_config_path p ssid (some security)) s =
        change_config-read can_write (g.remove_key group key) ssid security k s read in
      rw stored (
        ok,
        (k', loaded, same group key ∙ documented.get-remove group key k, same group other ∙ kept),
        others,
      )

-- The servers with commas, where no address is longer than a dotted quad.
length-dns_string :
    (ds : List Bytes) → All (λ d. length d ≤ 15) ds → length (dns_string ds) ≤ 16 * length ds
unfolding dns_string
length-dns_string [] h = omega arith
length-dns_string (d ∷ []) h = omega (arith, h.0)
length-dns_string (d ∷ e ∷ ds) h = omega (
  arith,
  h.0,
  length-dns_string (e ∷ ds) h.1,
  length-append d (codes "," ++ dns_string (e ∷ ds)),
  length-append (codes ",") (dns_string (e ∷ ds)),
)

fits-dotted : (ds : List Bytes) → All (λ d. length d ≤ 15) ds → fits ds ≡ true
fits-dotted ds h = ground (arith, length-dns_string ds h)

-- With addresses of at most 15 bytes, as those of IPv4 are, `change_network_dns` does not write past
-- the end of its buffer, whatever the file system holds.
pub change_network_dns-some :
    (p : Platform) (g : KeyFiles) (can_write : Bytes → Bool) (ssid security : Option Bytes)
    (dns : List Bytes) (s : State p.Prefs)
    → All (λ d. length d ≤ 15) dns
    → (r : Bool × State p.Prefs) × (change_network_dns p g can_write ssid security (some dns) s
        ≡ some r)
unfolding change_network_dns
change_network_dns-some p g can_write none security dns s h = ((false, s), refl)
change_network_dns-some p g can_write (some ssid) none dns s h = ((false, s), refl)
change_network_dns-some p g can_write (some ssid) (some security) dns s h =
    elim (Option-cases (load_config p g (build_config_path p ssid (some security)) s)) [
      | inl e ↦ ((false, s), rw (change_network_dns, e) refl)
      | inr (k, e) ↦ (
        change_config p g can_write
            (g.set_string (config_group ssid) (codes "Nameservers") (dns_string dns)) ssid security
            s,
        rw (change_network_dns, e, fits-dotted dns h) refl,
      )
    ]
