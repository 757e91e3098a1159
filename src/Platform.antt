-- ===== src/Platform.antt =====
-- What src/wifi_setting.c and src/wifi_profile.c call and do not implement: the JSON library
-- (pbnjson), the preference store (luna-prefs), Blowfish (OpenSSL) and base64 (GLib).
use webos_connman_adapter.Base.{
  ℕ, ◌≡◌, Bool, true, List, [], ◌∷◌, Option, none, some, String, bytes_eq, codes, if◌then◌else◌,
  Bytes, All, ◌≢◌,
}

-- `jvalue_ref`, the values of JSON.
mutual
  pub data Json : Type 0 where
    null : Json
    boolean : Bool → Json
    number : ℕ → Json
    text : Bytes → Json
    arr : Items → Json
    obj : Fields → Json

  pub data Items : Type 0 where
    nil : Items
    cons : Json → Items → Items

  pub data Fields : Type 0 where
    end : Fields
    field : Bytes → Json → Fields → Fields

abbrev pub items_of : List Json → Items
items_of [] = Items.nil
items_of (j ∷ js) = Items.cons j (items_of js)

abbrev pub list_of : Items → List Json
list_of Items.nil = []
list_of (Items.cons j js) = j ∷ list_of js

-- `jobject_put` of a literal key, in front.
abbrev pub member : String → Json → Fields → Fields
member key v fs = Fields.field (codes key) v fs

abbrev pub find_field : Bytes → Fields → Option Json
find_field key Fields.end = none
find_field key (Fields.field k v fs) =
    let rest = find_field key fs in if bytes_eq k key then some v else rest

-- `jobject_get_exists`: what is no object has no members.
abbrev pub jobject_get : String → Json → Option Json
jobject_get key (Json.obj fs) = find_field (codes key) fs
jobject_get key _ = none

-- The answers of `LPAppRemoveValue` that the program tells apart.
pub data Removal : Type 0 where
  removed no_such_key failed : Removal

-- The libraries, at the state that their part of the system has. A Boolean result is true for
-- success. `jboolean_get` takes the value that its out parameter holds before; `jstring_null` is
-- what `jstring_create` makes of NULL.
pub record Platform : Type 1 where
  pub Prefs : Type 0
  pub get_handle : Prefs → Bool
  pub copy_value : Prefs → Option Bytes
  pub remove_value : Prefs → Removal × Prefs
  pub set_value : Bytes → Prefs → Bool × Prefs
  pub schema_parses : Bool
  pub parse : Option Bytes → Option Json
  pub to_string : Json → Bytes
  pub jstring_get : Json → Option Bytes
  pub jstring_null : Json
  pub jboolean_get : Json → Bool → Bool
  pub jarray_items : Json → List Json
  pub bf_encrypt : Bytes → Bytes → Bytes
  pub bf_decrypt : Bytes → Bytes → Bytes
  pub b64_encode : Bytes → Bytes
  pub b64_decode : Bytes → Bytes
  pub config_dir : Bytes

-- No byte is NUL.
abbrev pub IsText : Bytes → Type 0
IsText = All (λ b. b ≢ 0)

-- The documented behaviour that the program relies on.
pub record Documented (p : Platform) : Type 0 where
  pub schema : p.schema_parses ≡ true
  pub copy_value-set_value :
      (v : Bytes) (q : p.Prefs)
      → (p.set_value v q).0 ≡ true
      → p.copy_value (p.set_value v q).1 ≡ some v
  pub parse-to_string : (j : Json) → p.parse (some (p.to_string j)) ≡ some j
  pub to_string-IsText : (j : Json) → IsText (p.to_string j)
  pub to_string-ne : (j : Json) → p.to_string j ≢ []
  pub b64_encode-ne : (b : Bytes) → b ≢ [] → p.b64_encode b ≢ []
  pub jstring_get-text : (s : Bytes) → p.jstring_get (Json.text s) ≡ some s
  pub jboolean_get-boolean : (b old : Bool) → p.jboolean_get (Json.boolean b) old ≡ b
  pub jarray_items-arr : (js : Items) → p.jarray_items (Json.arr js) ≡ list_of js
  pub bf_decrypt-bf_encrypt : (key b : Bytes) → p.bf_decrypt key (p.bf_encrypt key b) ≡ b
  pub bf_encrypt-ne : (key b : Bytes) → b ≢ [] → p.bf_encrypt key b ≢ []
  pub b64_decode-b64_encode : (b : Bytes) → p.b64_decode (p.b64_encode b) ≡ b
