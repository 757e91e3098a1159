-- ===== src/Utils/Passphrase.antt =====
-- `is_xstring` and `is_valid_wifi_passphrase` of src/utils.c.
use webos_connman_adapter.Base.{
  ℕ, ◌≤◌, ◌≡◌, refl, sym, ◌∙◌, ◌⊎◌, ◌↔◌, Bool, true, false, ◌&&◌, ◌||◌, [], ◌∷◌, Option, none, some,
  length, All, leb, ◌==◌, if◌then◌else◌, Bytes, bytes_eq, bytes_eq_iff, codes, arith,
}

-- `g_ascii_isxdigit`.
abbrev pub is_xdigit : ℕ → Bool
is_xdigit c = leb b'0' c && leb c b'9' || leb b'A' c && leb c b'F' || leb b'a' c && leb c b'f'

unfoldable pub is_xstring : Option Bytes → Bool
is_xstring none = false
is_xstring (some []) = true
is_xstring (some (c ∷ cs)) = let rest = is_xstring (some cs) in if is_xdigit c then rest else false

unfoldable pub is_valid_wifi_passphrase : Option Bytes → Option Bytes → Bool
is_valid_wifi_passphrase none security = false
is_valid_wifi_passphrase (some passphrase) none = false
is_valid_wifi_passphrase (some passphrase) (some security) =
    let is_hex = is_xstring (some passphrase) in
    let len = length passphrase in
    if bytes_eq security (codes "wep")
    then (len == 5 || len == 13) || is_hex && (len == 10 || len == 26)
    else if bytes_eq security (codes "psk")
    then leb 8 len && (leb len 63 || is_hex && len == 64)
    else true

abbrev pub IsHexDigit : ℕ → Type 0
IsHexDigit c = (48 ≤ c) × (c ≤ 57) ⊎ (65 ≤ c) × (c ≤ 70) ⊎ (97 ≤ c) × (c ≤ 102)

is_xdigit_iff : (c : ℕ) → (is_xdigit c ≡ true) ↔ IsHexDigit c
is_xdigit_iff c = ground arith

is_xstring_iff : (s : Bytes) → (is_xstring (some s) ≡ true) ↔ All IsHexDigit s
unfolding is_xstring
is_xstring_iff [] = ((λ e. tt), (λ a. refl))
is_xstring_iff (c ∷ cs) = ground (arith, is_xstring_iff cs, is_xdigit_iff c)

-- The comments of the function: lengths 5 and 13, in hex also 10 and 26, for "wep"; lengths 8 to 63
-- and in hex also 64 for "psk"; no condition for other types.
abbrev pub IsAcceptable : Bytes → Bytes → Type 0
IsAcceptable passphrase security =
    let len = length passphrase in
    (security ≡ codes "wep"
      → (len ≡ 5) ⊎ (len ≡ 13) ⊎ All IsHexDigit passphrase × ((len ≡ 10) ⊎ (len ≡ 26)))
    × (security ≡ codes "psk" → (8 ≤ len) × (len ≤ 63) ⊎ All IsHexDigit passphrase × (len ≡ 64))

wep_not_psk : codes "wep" ≡ codes "psk" → ⊥
wep_not_psk e = ground arith

-- A passphrase is valid for a security type exactly if it meets the documented conditions on its
-- length and its digits; without a passphrase or a type it is not valid.
pub is_valid_wifi_passphrase_iff :
    (passphrase security : Bytes)
    → ((is_valid_wifi_passphrase (some passphrase) (some security) ≡ true)
        ↔ IsAcceptable passphrase security)
      × ((s : Option Bytes) → is_valid_wifi_passphrase none s ≡ false)
      × ((s : Option Bytes) → is_valid_wifi_passphrase s none ≡ false)
unfolding is_valid_wifi_passphrase
is_valid_wifi_passphrase_iff passphrase security = ((to, from), λ s. refl, absent)
  where
    absent : (s : Option Bytes) → is_valid_wifi_passphrase s none ≡ false
    absent none = refl
    absent (some s) = refl

    to :
        is_valid_wifi_passphrase (some passphrase) (some security) ≡ true
        → IsAcceptable passphrase security
    to e = (
      λ h. ground (arith, bytes_eq_iff security (codes "wep"), is_xstring_iff passphrase),
      λ h. ground (
        arith,
        bytes_eq_iff security (codes "wep"),
        bytes_eq_iff security (codes "psk"),
        is_xstring_iff passphrase,
        λ (e : security ≡ codes "wep"). wep_not_psk (sym e ∙ h),
      ),
    )

    from :
        IsAcceptable passphrase security
        → is_valid_wifi_passphrase (some passphrase) (some security) ≡ true
    from a = ground (
      arith,
      bytes_eq_iff security (codes "wep"),
      bytes_eq_iff security (codes "psk"),
      is_xstring_iff passphrase,
    )
