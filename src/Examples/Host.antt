-- ===== src/Examples/Host.antt =====
-- A concrete host: preferences in memory, a serializer that its parser inverts, a toy cipher.
use webos_connman_adapter.Base.{
  ◌>>=◌, ℕ, zero, suc, ◌+◌, ◌-◌, ◌≤◌, ◌<◌, ◌≡◌, ◌≢◌, refl, ap, Bool, true, false, List, [], ◌∷◌,
  Option, none, some, length, Bytes, codes, arith,
}
use webos_connman_adapter.Platform.{
  Json, Items, Fields, list_of, Platform, Documented, IsText, removed, no_such_key,
}

abbrev flag : Bool → ℕ
flag true = 2
flag false = 1

-- A text: its length and its bytes, each one higher so that none is NUL.
abbrev put_text : Bytes → Bytes → Bytes
put_text [] out = 1 ∷ out
put_text (b ∷ bs) out = suc (suc b) ∷ put_text bs out

unfoldable mutual
  put_json : Json → Bytes → Bytes
  put_json Json.null out = 1 ∷ out
  put_json (Json.boolean b) out = 2 ∷ flag b ∷ out
  put_json (Json.number n) out = 3 ∷ suc n ∷ out
  put_json (Json.text s) out = 4 ∷ put_text s out
  put_json (Json.arr js) out = 5 ∷ put_items js out
  put_json (Json.obj fs) out = 6 ∷ put_fields fs out

  put_items : Items → Bytes → Bytes
  put_items Items.nil out = 1 ∷ out
  put_items (Items.cons j js) out = 2 ∷ put_json j (put_items js out)

  put_fields : Fields → Bytes → Bytes
  put_fields Fields.end out = 1 ∷ out
  put_fields (Fields.field k v fs) out = 2 ∷ put_text k (put_json v (put_fields fs out))

unfoldable get_text : Bytes → Option (Bytes × Bytes)
get_text [] = none
get_text (zero ∷ bs) = none
get_text (suc zero ∷ bs) = some ([], bs)
get_text (suc (suc b) ∷ bs) = get_text bs >>= λ (s, out). some (b ∷ s, out)

unfoldable mutual
  get_json : ℕ → Bytes → Option (Json × Bytes)
  get_json (suc n) ((suc zero) ∷ bs) = some (Json.null, bs)
  get_json (suc n) ((suc (suc zero)) ∷ (suc zero) ∷ bs) = some (Json.boolean false, bs)
  get_json (suc n) ((suc (suc zero)) ∷ (suc (suc zero)) ∷ bs) = some (Json.boolean true, bs)
  get_json (suc n) ((suc (suc (suc zero))) ∷ suc k ∷ bs) = some (Json.number k, bs)
  get_json (suc n) ((suc (suc (suc (suc zero)))) ∷ bs) =
      get_text bs >>= λ (s, out). some (Json.text s, out)
  get_json (suc n) ((suc (suc (suc (suc (suc zero))))) ∷ bs) =
      get_items n bs >>= λ (js, out). some (Json.arr js, out)
  get_json (suc n) ((suc (suc (suc (suc (suc (suc zero)))))) ∷ bs) =
      get_fields n bs >>= λ (fs, out). some (Json.obj fs, out)
  get_json _ _ = none

  get_items : ℕ → Bytes → Option (Items × Bytes)
  get_items (suc n) ((suc zero) ∷ bs) = some (Items.nil, bs)
  get_items (suc n) ((suc (suc zero)) ∷ bs) =
      get_json n bs >>= λ (j, cs). get_items n cs >>= λ (js, out). some (Items.cons j js, out)
  get_items _ _ = none

  get_fields : ℕ → Bytes → Option (Fields × Bytes)
  get_fields (suc n) ((suc zero) ∷ bs) = some (Fields.end, bs)
  get_fields (suc n) ((suc (suc zero)) ∷ bs) = get_text bs >>= λ (k, cs).
      get_json n cs >>= λ (v, ds). get_fields n ds >>= λ (fs, out). some (Fields.field k v fs, out)
  get_fields _ _ = none

put_text-le : (s out : Bytes) → length out ≤ length (put_text s out)
put_text-le [] out = omega arith
put_text-le (b ∷ bs) out = omega (arith, put_text-le bs out)

mutual
  unfolding put_json

  put_json-lt : (j : Json) (out : Bytes) → length out < length (put_json j out)
  put_json-lt Json.null out = omega arith
  put_json-lt (Json.boolean b) out = omega arith
  put_json-lt (Json.number n) out = omega arith
  put_json-lt (Json.text s) out = omega (arith, put_text-le s out)
  put_json-lt (Json.arr js) out = omega (arith, put_items-lt js out)
  put_json-lt (Json.obj fs) out = omega (arith, put_fields-lt fs out)

  put_items-lt : (js : Items) (out : Bytes) → length out < length (put_items js out)
  put_items-lt Items.nil out = omega arith
  put_items-lt (Items.cons j js) out =
      omega (arith, put_json-lt j (put_items js out), put_items-lt js out)

  put_fields-lt : (fs : Fields) (out : Bytes) → length out < length (put_fields fs out)
  put_fields-lt Fields.end out = omega arith
  put_fields-lt (Fields.field k v fs) out = omega (
    arith,
    put_text-le k (put_json v (put_fields fs out)),
    put_json-lt v (put_fields fs out),
    put_fields-lt fs out,
  )

get-put_text : (s out : Bytes) → get_text (put_text s out) ≡ some (s, out)
unfolding get_text
get-put_text [] out = refl
get-put_text (b ∷ bs) out = rw (get-put_text bs out) refl

mutual
  unfolding put_json get_json get_text

  get-put_json :
      (n : ℕ) (j : Json) (out : Bytes)
      → length (put_json j out) ≤ n + length out
      → get_json n (put_json j out) ≡ some (j, out)
  get-put_json zero j out h = absurd (omega (arith, h, put_json-lt j out))
  get-put_json (suc n) Json.null out h = refl
  get-put_json (suc n) (Json.boolean true) out h = refl
  get-put_json (suc n) (Json.boolean false) out h = refl
  get-put_json (suc n) (Json.number k) out h = refl
  get-put_json (suc n) (Json.text s) out h = rw (get-put_text s out) refl
  get-put_json (suc n) (Json.arr js) out h = rw (get-put_items n js out (omega (arith, h))) refl
  get-put_json (suc n) (Json.obj fs) out h = rw (get-put_fields n fs out (omega (arith, h))) refl

  get-put_items :
      (n : ℕ) (js : Items) (out : Bytes)
      → length (put_items js out) ≤ n + length out
      → get_items n (put_items js out) ≡ some (js, out)
  get-put_items zero js out h = absurd (omega (arith, h, put_items-lt js out))
  get-put_items (suc n) Items.nil out h = refl
  get-put_items (suc n) (Items.cons j js) out h =
      rw (get-put_json n j (put_items js out) (omega (arith, h, put_items-lt js out)))
        (rw (get-put_items n js out (omega (arith, h, put_json-lt j (put_items js out)))) refl)

  get-put_fields :
      (n : ℕ) (fs : Fields) (out : Bytes)
      → length (put_fields fs out) ≤ n + length out
      → get_fields n (put_fields fs out) ≡ some (fs, out)
  get-put_fields zero fs out h = absurd (omega (arith, h, put_fields-lt fs out))
  get-put_fields (suc n) Fields.end out h = refl
  get-put_fields (suc n) (Fields.field k v fs) out h =
      let a = put_text-le k (put_json v (put_fields fs out)) in
      let b = put_json-lt v (put_fields fs out) in
      let c = put_fields-lt fs out in
      rw (get-put_text k (put_json v (put_fields fs out))) (
        rw (get-put_json n v (put_fields fs out) (omega (arith, h, a, c)))
          (rw (get-put_fields n fs out (omega (arith, h, a, b))) refl))

put_text-IsText : (s out : Bytes) → IsText out → IsText (put_text s out)
put_text-IsText [] out t = ((λ e. cc), t)
put_text-IsText (b ∷ bs) out t = ((λ e. cc), put_text-IsText bs out t)

mutual
  unfolding put_json

  put_json-IsText : (j : Json) (out : Bytes) → IsText out → IsText (put_json j out)
  put_json-IsText Json.null out t = ((λ e. cc), t)
  put_json-IsText (Json.boolean true) out t = ((λ e. cc), ((λ e. cc), t))
  put_json-IsText (Json.boolean false) out t = ((λ e. cc), ((λ e. cc), t))
  put_json-IsText (Json.number n) out t = ((λ e. cc), ((λ e. cc), t))
  put_json-IsText (Json.text s) out t = ((λ e. cc), put_text-IsText s out t)
  put_json-IsText (Json.arr js) out t = ((λ e. cc), put_items-IsText js out t)
  put_json-IsText (Json.obj fs) out t = ((λ e. cc), put_fields-IsText fs out t)

  put_items-IsText : (js : Items) (out : Bytes) → IsText out → IsText (put_items js out)
  put_items-IsText Items.nil out t = ((λ e. cc), t)
  put_items-IsText (Items.cons j js) out t =
      ((λ e. cc), put_json-IsText j _ (put_items-IsText js out t))

  put_fields-IsText : (fs : Fields) (out : Bytes) → IsText out → IsText (put_fields fs out)
  put_fields-IsText Fields.end out t = ((λ e. cc), t)
  put_fields-IsText (Fields.field k v fs) out t =
      ((λ e. cc), put_text-IsText k _ (put_json-IsText v _ (put_fields-IsText fs out t)))

unfoldable pub serialize : Json → Bytes
unfolding put_json
serialize j = put_json j []

-- The whole text is one value.
abbrev only : Option (Json × Bytes) → Option Json
only (some (j, [])) = some j
only _ = none

unfoldable pub parse_text : Option Bytes → Option Json
unfolding get_json get_text
parse_text none = none
parse_text (some s) = only (get_json (length s) s)

pub parse_text-serialize : (j : Json) → parse_text (some (serialize j)) ≡ some j
unfolding parse_text serialize
parse_text-serialize j = rw (get-put_json (length (put_json j [])) j [] (omega arith)) refl

pub serialize-ne : (j : Json) → serialize j ≢ []
unfolding serialize
serialize-ne j e = absurd (omega (arith, put_json-lt j [], ap length e))

-- The toy cipher adds the length of the key to each byte.
abbrev shift : ℕ → Bytes → Bytes
shift n [] = []
shift n (b ∷ bs) = (b + n) ∷ shift n bs

abbrev unshift : ℕ → Bytes → Bytes
unshift n [] = []
unshift n (b ∷ bs) = (b - n) ∷ unshift n bs

unshift-shift : (n : ℕ) (bs : Bytes) → unshift n (shift n bs) ≡ bs
unshift-shift n [] = refl
unshift-shift n (b ∷ bs) = ground (arith, unshift-shift n bs)

abbrev text_of : Json → Option Bytes
text_of (Json.text s) = some s
text_of _ = none

abbrev boolean_of : Json → Bool → Bool
boolean_of (Json.boolean b) old = b
boolean_of _ old = old

abbrev items_in : Json → List Json
items_in (Json.arr js) = list_of js
items_in _ = []

abbrev without_mark : Bytes → Bytes
without_mark [] = []
without_mark (b ∷ bs) = bs

-- The preferences are one value in memory. The toy base64 is a mark in front.
abbrev pub host : Platform
host = record {
  Prefs = Option Bytes;
  get_handle = λ q. true;
  copy_value = λ q. q;
  remove_value = λ q. elim q [ none ↦ (no_such_key, none) | some v ↦ (removed, none) ];
  set_value = λ v q. (true, some v);
  schema_parses = true;
  parse = parse_text;
  to_string = serialize;
  jstring_get = text_of;
  jstring_null = Json.null;
  jboolean_get = boolean_of;
  jarray_items = items_in;
  bf_encrypt = λ key b. shift (length key) b;
  bf_decrypt = λ key b. unshift (length key) b;
  b64_encode = λ b. 66 ∷ b;
  b64_decode = without_mark;
  config_dir = codes "/var/lib/connman";
}

shift-ne : (n : ℕ) (b : Bytes) → b ≢ [] → shift n b ≢ []
shift-ne n [] h e = h refl
shift-ne n (b ∷ bs) h e = cc

pub host-Documented : Documented host
unfolding serialize
host-Documented = record {
  schema = refl;
  copy_value-set_value = λ v q e. refl;
  parse-to_string = parse_text-serialize;
  to_string-IsText = λ j. put_json-IsText j [] tt;
  to_string-ne = serialize-ne;
  b64_encode-ne = λ b h e. cc;
  jstring_get-text = λ s. refl;
  jboolean_get-boolean = λ b old. refl;
  jarray_items-arr = λ js. refl;
  bf_decrypt-bf_encrypt = λ key b. unshift-shift (length key) b;
  bf_encrypt-ne = λ key b. shift-ne (length key) b;
  b64_decode-b64_encode = λ b. refl;
}
