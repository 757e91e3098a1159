-- ===== src/Examples/Config.antt =====
-- A key file in memory, and changes of it.
use webos_connman_adapter.Base.{
  ◌≡◌, ◌≢◌, refl, Bool, true, false, ◌&&◌, not, List, [], ◌∷◌, Option, none, some, if◌then◌else◌,
  Bytes, bytes_eq, bytes_eq_iff, bytes_eq_refl, codes, keep, is_empty, Bool-cases, inl, inr, arith,
}
use webos_connman_adapter.Platform.{Json, Items}
use webos_connman_adapter.Profile.State.{State}
use webos_connman_adapter.Setting.Store.{build_config_path}
use webos_connman_adapter.Config.KeyFile.{KeyFiles, DocumentedKeys, load_config}
use webos_connman_adapter.Config.Change.{config_group, slashed, change_network_ipv4}
use webos_connman_adapter.Config.Kept.{change_network_ipv4_lem}
use webos_connman_adapter.Examples.Host.{
  host, serialize, parse_text, parse_text-serialize, serialize-ne,
}

-- A group, a key and its value.
abbrev Entry : Type 0
Entry = Bytes × Bytes × Bytes

abbrev is_at : Bytes → Bytes → Entry → Bool
is_at group key e = bytes_eq group e.0 && bytes_eq key e.1

abbrev get : Bytes → Bytes → List Entry → Option Bytes
get group key [] = none
get group key (e ∷ es) = let rest = get group key es in if is_at group key e then some e.2 else rest

abbrev encode : List Entry → Items
encode [] = Items.nil
encode (e ∷ es) =
    Items.cons (Json.text e.0) (Items.cons (Json.text e.1) (Items.cons (Json.text e.2) (encode es)))

abbrev decode_items : Items → Option (List Entry)
decode_items Items.nil = some []
decode_items (Items.cons (Json.text a) (Items.cons (Json.text b) (Items.cons (Json.text c) js))) =
    let rest = decode_items js in elim rest [ none ↦ none | some es ↦ some ((a, b, c) ∷ es) ]
decode_items _ = none

abbrev decode : Option Json → Option (List Entry)
decode (some (Json.arr js)) = decode_items js
decode _ = none

abbrev pub entries : KeyFiles
entries = record {
  KeyFile = List Entry;
  new = [];
  admits = λ group key v. true;
  set_string = λ group key v k. (group, key, v) ∷ k;
  remove_key = λ group key k. keep (λ e. not (is_at group key e)) k;
  get_string = get;
  to_data = λ k. serialize (Json.arr (encode k));
  load = λ text. decode (parse_text (some text));
}

decode-encode : (es : List Entry) → decode_items (encode es) ≡ some es
decode-encode [] = refl
decode-encode (e ∷ es) = rw (decode-encode es) refl

get-remove :
    (group key : Bytes) (es : List Entry)
    → get group key (keep (λ e. not (is_at group key e)) es) ≡ none
get-remove group key [] = refl
get-remove group key (e ∷ es) = elim (Bool-cases (is_at group key e)) [
  | inl h ↦ rw h (get-remove group key es)
  | inr h ↦ rw (h, h) (get-remove group key es)
]

elsewhere :
    (group key other_group other : Bytes) (e : Entry)
    → bytes_eq other_group group && bytes_eq other key ≡ false
    → is_at group key e ≡ true
    → is_at other_group other e ≡ false
elsewhere group key other_group other e h m = ground (
  arith,
  bytes_eq_iff group e.0,
  bytes_eq_iff key e.1,
  bytes_eq_iff other_group e.0,
  bytes_eq_iff other e.1,
  bytes_eq_iff other_group group,
  bytes_eq_iff other key,
)

get-remove_other :
    (group key other_group other : Bytes) (es : List Entry)
    → bytes_eq other_group group && bytes_eq other key ≡ false
    → get other_group other (keep (λ e. not (is_at group key e)) es) ≡ get other_group other es
get-remove_other group key other_group other [] h = refl
get-remove_other group key other_group other (e ∷ es) h = elim (Bool-cases (is_at group key e)) [
  | inl m ↦
      rw (m, elsewhere group key other_group other e h m)
        (get-remove_other group key other_group other es h)
  | inr m ↦ rw m (ground (arith, get-remove_other group key other_group other es h))
]

is_empty-ne : (b : Bytes) → b ≢ [] → is_empty b ≡ false
is_empty-ne [] h = absurd (h refl)
is_empty-ne (x ∷ b) h = refl

documented : DocumentedKeys entries
documented = record {
  get-set = λ group key v k h. rw (bytes_eq_refl group, bytes_eq_refl key) refl;
  get-set_other = λ group key v other_group other k e. ground (arith, e);
  get-remove = get-remove;
  get-remove_other = get-remove_other;
  load-to_data = λ k.
      (k, rw (parse_text-serialize (Json.arr (encode k))) (decode-encode k), λ group key. refl);
  to_data-ne = λ group key v k e.
      is_empty-ne (serialize (Json.arr (encode k))) (serialize-ne (Json.arr (encode k)));
}

abbrev can_write : Bytes → Bool
can_write path = true

abbrev ssid : Bytes
ssid = codes "home"

abbrev psk : Bytes
psk = codes "psk"

abbrev old : List Entry
old = (config_group ssid, codes "Name", ssid) ∷ []

abbrev path : Bytes
path = build_config_path host ssid (some psk)

abbrev pub stored : State (Option Bytes)
stored = record {
  wifi_profile_list = [];
  gprofile_id = 777;
  next_address = 1;
  prefs = none;
  files = λ f. if bytes_eq f path then some (serialize (Json.arr (encode old))) else none;
}

stored-read : load_config host entries path stored ≡ some old
unfolding load_config
stored-read =
    rw (load_config, bytes_eq_refl path, parse_text-serialize (Json.arr (encode old)))
      (decode-encode old)

change_network_ipv4_example :
    let (ok, t) =
      change_network_ipv4 host entries can_write
        (some ssid)
        (some psk)
        (some (codes "10.0.0.2"))
        (some (codes "255.0.0.0"))
        (some (codes "10.0.0.1"))
        stored in
    (ok ≡ true)
    × ((k' : List Entry) × (load_config host entries path t ≡ some k')
        × (get (config_group ssid) (codes "IPv4") k'
            ≡ some (slashed (codes "10.0.0.2") (codes "255.0.0.0") (codes "10.0.0.1")))
        × ((other_group other : Bytes)
            → bytes_eq other_group (config_group ssid) && bytes_eq other (codes "IPv4") ≡ false
            → get other_group other k' ≡ get other_group other old))
    × ((f : Bytes) → bytes_eq f path ≡ false → t.files f ≡ stored.files f)
    × (t.wifi_profile_list ≡ stored.wifi_profile_list)
change_network_ipv4_example =
    change_network_ipv4_lem host entries documented can_write ssid psk (codes "10.0.0.2")
      (codes "255.0.0.0") (codes "10.0.0.1") old stored stored-read refl refl
