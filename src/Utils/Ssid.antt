-- ===== src/Utils/Ssid.antt =====
-- `convert_ssid_to_utf8` of src/utils.c. The conversions of GLib are parameters.
use webos_connman_adapter.Base.{
  ◌≡◌, true, false, List, [], ◌∷◌, Option, none, some, String, str_eq, if◌then◌else◌, is_some,
  is_empty, Bytes, arith,
}

-- `struct language_encodings`; the third encoding may be NULL.
pub record LanguageEncodings : Type 0 where
  pub language : String
  pub encoding1 : String
  pub encoding2 : String
  pub encoding3 : Option String

-- The table `encodings`, without its end mark.
abbrev pub encodings : List LanguageEncodings
encodings =
    record {
      language = "ko-KR";
      encoding1 = "EUC-KR";
      encoding2 = "ISO-2022-KR";
      encoding3 = some "JOHAB";
    }
    ∷ record {
      language = "zh-Hans-CN";
      encoding1 = "EUC-CN";
      encoding2 = "GB2312";
      encoding3 = some "GB18030";
    }
    ∷ record { language = "ja-JP"; encoding1 = "EUC-JP"; encoding2 = "SHIFT-JIS"; encoding3 = none }
    ∷ []

unfoldable find_language : String → List LanguageEncodings → Option LanguageEncodings
find_language lang [] = none
find_language lang (e ∷ es) = if str_eq e.language lang then some e else find_language lang es

unfoldable pub get_encodings_for_language : Option String → Option LanguageEncodings
unfolding find_language
get_encodings_for_language none = none
get_encodings_for_language (some lang) = find_language lang encodings

-- `encoding1`, `encoding2` and `encoding3` of the function.
abbrev pub chosen_encodings : Option LanguageEncodings → String × String × Option String
chosen_encodings none = ("iso-8859-1", "windows-1251", none)
chosen_encodings (some e) = (e.encoding1, e.encoding2, e.encoding3)

-- `g_convert (ssid, len, "UTF-8", encoding)`, and the variant that puts "?" for what it cannot
-- convert.
module _ (g_convert g_convert_with_fallback : Bytes → String → Option Bytes) where
  unfoldable pub convert_ssid_to_utf8 : Option Bytes → Option String → Option Bytes
  convert_ssid_to_utf8 none system_locale = none
  convert_ssid_to_utf8 (some ssid) system_locale =
      let (encoding1, encoding2, encoding3) =
        chosen_encodings (get_encodings_for_language system_locale) in
      let converted1 = g_convert ssid encoding1 in
      let converted2 = if is_some converted1 then converted1 else g_convert ssid encoding2 in
      let third : Option Bytes = elim encoding3 [
        | none ↦ converted2
        | some encoding ↦ g_convert ssid encoding
      ] in
      let converted3 = if is_some converted2 then converted2 else third in
      if is_empty ssid
      then none
      else if is_some converted3
      then converted3
      else g_convert_with_fallback ssid encoding1

  -- The encodings of a locale in the order in which they are tried.
  abbrev pub attempts : Option LanguageEncodings → List String
  attempts none = "iso-8859-1" ∷ "windows-1251" ∷ []
  attempts (some e) = e.encoding1 ∷ e.encoding2 ∷ elim e.encoding3 [ none ↦ [] | some f ↦ f ∷ [] ]

  -- The first conversion that works.
  abbrev pub first_conversion : Bytes → List String → Option Bytes
  first_conversion ssid [] = none
  first_conversion ssid (e ∷ es) = elim (g_convert ssid e) [
    | none ↦ first_conversion ssid es
    | some c ↦ some c
  ]

  abbrev pub first_of_attempts : List String → Option String
  first_of_attempts [] = none
  first_of_attempts (e ∷ es) = some e

  -- An SSID that is not empty is converted by the first encoding of its locale that can do it, and
  -- where none can by the first one with replacements. An empty SSID gives NULL.
  pub convert_ssid_to_utf8_lem :
      (ssid : Bytes) (system_locale : Option String)
      → let languages = get_encodings_for_language system_locale in
        let direct = first_conversion ssid (attempts languages) in
        (is_empty ssid ≡ true → convert_ssid_to_utf8 (some ssid) system_locale ≡ none)
        × (is_empty ssid ≡ false
            → is_some direct ≡ true
            → convert_ssid_to_utf8 (some ssid) system_locale ≡ direct)
        × (is_empty ssid ≡ false
            → is_some direct ≡ false
            → convert_ssid_to_utf8 (some ssid) system_locale
              ≡ g_convert_with_fallback ssid (chosen_encodings languages).0)
  unfolding convert_ssid_to_utf8
  convert_ssid_to_utf8_lem ssid system_locale = ground arith
