-- ===== src/Config/KeyFile.antt =====
-- The key files of GLib, and `store_config` and `load_config` of src/wifi_setting.c.
use webos_connman_adapter.Base.{
  ◌≡◌, Bool, true, false, ◌&&◌, Option, none, some, if◌then◌else◌, is_empty, Bytes, bytes_eq,
}
use webos_connman_adapter.Platform.{Platform}
use webos_connman_adapter.Profile.State.{State}

-- `GKeyFile` with the calls that the program makes: a group and a key name a value. `admits` is
-- whether GLib takes a group, a key and a value as they are: a group has no brackets and no control
-- characters, a value is UTF-8. The service group of an SSID is not always such a group.
pub record KeyFiles : Type 1 where
  pub KeyFile : Type 0
  pub new : KeyFile
  pub admits : Bytes → Bytes → Bytes → Bool
  pub set_string : Bytes → Bytes → Bytes → KeyFile → KeyFile
  pub remove_key : Bytes → Bytes → KeyFile → KeyFile
  pub get_string : Bytes → Bytes → KeyFile → Option Bytes
  pub to_data : KeyFile → Bytes
  pub load : Bytes → Option KeyFile

-- What GLib documents of them: a value that is admitted is found under its group and key, a change
-- of one key leaves the others, and a file that is written is read with the same values. A key file
-- with a value in it has a text.
pub record DocumentedKeys (g : KeyFiles) : Type 0 where
  pub get-set :
      (group key v : Bytes) (k : g.KeyFile)
      → g.admits group key v ≡ true
      → g.get_string group key (g.set_string group key v k) ≡ some v
  pub get-set_other :
      (group key v other_group other : Bytes) (k : g.KeyFile)
      → bytes_eq other_group group && bytes_eq other key ≡ false
      → g.get_string other_group other (g.set_string group key v k)
        ≡ g.get_string other_group other k
  pub get-remove :
      (group key : Bytes) (k : g.KeyFile) → g.get_string group key (g.remove_key group key k) ≡ none
  pub get-remove_other :
      (group key other_group other : Bytes) (k : g.KeyFile)
      → bytes_eq other_group group && bytes_eq other key ≡ false
      → g.get_string other_group other (g.remove_key group key k) ≡ g.get_string other_group other k
  pub load-to_data :
      (k : g.KeyFile)
      → (k' : g.KeyFile) × (g.load (g.to_data k) ≡ some k')
        × ((group key : Bytes) → g.get_string group key k' ≡ g.get_string group key k)
  pub to_data-ne :
      (group key v : Bytes) (k : g.KeyFile)
      → g.get_string group key k ≡ some v
      → is_empty (g.to_data k) ≡ false

module _ (p : Platform) (g : KeyFiles) where
  -- `can_write` is whether `g_fopen (…, "w")` works.
  unfoldable pub store_config :
      (Bytes → Bool) → g.KeyFile → Bytes → State p.Prefs → Bool × State p.Prefs
  store_config can_write k path s =
      let text = g.to_data k in
      let written = record s { files = λ f. if bytes_eq f path then some text else s.files f } in
      if is_empty text then (true, s) else if can_write path then (true, written) else (false, s)

  unfoldable pub load_config : Bytes → State p.Prefs → Option g.KeyFile
  load_config path s = elim (s.files path) [ none ↦ none | some text ↦ g.load text ]
