-- ===== src/Setting/Cipher.antt =====
-- `wifi_setting_encrypt` and `wifi_setting_decrypt` of src/wifi_setting.c.
use webos_connman_adapter.Base.{
  ◌≡◌, refl, ◌≢◌, false, ◌||◌, [], ◌∷◌, Option, none, some, ◌==◌, if◌then◌else◌, Bytes, codes,
  is_empty, arith,
}
use webos_connman_adapter.Platform.{Platform, Documented, IsText}

-- `WIFI_LUNA_PREFS_ID`.
abbrev pub prefs_id : Bytes
prefs_id = codes "com.webos.service.wifi"

-- A buffer read as a C string ends before its first NUL.
unfoldable pub c_string : Bytes → Bytes
c_string [] = []
c_string (b ∷ bs) = let rest = c_string bs in if b == 0 then [] else b ∷ rest

module _ (p : Platform) where
  unfoldable pub wifi_setting_encrypt : Option Bytes → Bytes → Option Bytes
  wifi_setting_encrypt none key = none
  wifi_setting_encrypt (some input) key =
      if is_empty input || is_empty key then none else some (p.b64_encode (p.bf_encrypt key input))

  unfoldable pub wifi_setting_decrypt : Option Bytes → Bytes → Option Bytes
  wifi_setting_decrypt none key = none
  wifi_setting_decrypt (some input) key =
      if is_empty input || is_empty key
      then none
      else some (c_string (p.bf_decrypt key (p.b64_decode input)))

c_string-IsText : (b : Bytes) → IsText b → c_string b ≡ b
unfolding c_string
c_string-IsText [] t = refl
c_string-IsText (b ∷ bs) t = ground (arith, c_string-IsText bs t.1)

not_empty : (b : Bytes) → b ≢ [] → is_empty b ≡ false
not_empty [] h = absurd (h refl)
not_empty (b ∷ bs) h = refl

-- With libraries that do what is documented, a text that is not empty and has no NUL byte,
-- encrypted under a key that is not empty and decrypted under the same key, is the text again.
pub decrypt-encrypt :
    (p : Platform) (text key : Bytes)
    → Documented p
    → IsText text
    → text ≢ []
    → key ≢ []
    → wifi_setting_decrypt p (wifi_setting_encrypt p (some text) key) key ≡ some text
unfolding wifi_setting_encrypt wifi_setting_decrypt
decrypt-encrypt p text key d t n k =
    let cipher = p.bf_encrypt key text in
    let encoded = d.b64_encode-ne cipher (d.bf_encrypt-ne key text n) in
    rw (not_empty text n, not_empty key k, not_empty _ encoded, not_empty key k)
      (rw
        (d.b64_decode-b64_encode cipher, d.bf_decrypt-bf_encrypt key text, c_string-IsText text t))
