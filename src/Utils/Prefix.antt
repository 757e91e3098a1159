-- ===== src/Utils/Prefix.antt =====
-- `strip_prefix` of src/utils.c.
use webos_connman_adapter.Base.{
  ℕ, zero, suc, ◌≤◌, ◌≡◌, refl, ◌↔◌, Bool, true, false, [], ◌∷◌, ◌++◌, Option, none, some, length,
  ltb, ◌==◌, if◌then◌else◌, Bytes, arith,
}

-- `strncmp (a, b, n) == 0`, for strings of at least n bytes.
abbrev pub same_start : ℕ → Bytes → Bytes → Bool
same_start zero a b = true
same_start (suc n) (x ∷ a) (y ∷ b) = let rest = same_start n a b in if x == y then rest else false
same_start (suc n) _ _ = false

abbrev pub drop : ℕ → Bytes → Bytes
drop zero a = a
drop (suc n) [] = []
drop (suc n) (x ∷ a) = drop n a

unfoldable pub strip_prefix : Option Bytes → Option Bytes → Option Bytes
strip_prefix none prefix = none
strip_prefix (some str) none = none
strip_prefix (some str) (some prefix) =
    let prefix_len = length prefix in
    if ltb (length str) prefix_len
    then none
    else if same_start prefix_len str prefix
    then some (drop prefix_len str)
    else none

sound :
    (prefix str : Bytes)
    → length prefix ≤ length str
    → same_start (length prefix) str prefix ≡ true
    → str ≡ prefix ++ drop (length prefix) str
sound [] str h e = refl
sound (x ∷ prefix) [] h e = elim h [ ]
sound (x ∷ prefix) (y ∷ str) h e = ground (arith, sound prefix str)

complete :
    (prefix rest : Bytes)
    → (same_start (length prefix) (prefix ++ rest) prefix ≡ true)
      × (drop (length prefix) (prefix ++ rest) ≡ rest)
      × (length prefix ≤ length (prefix ++ rest))
complete [] rest = (refl, refl, omega arith)
complete (x ∷ prefix) rest = let (s, d, l) = complete prefix rest in (ground arith, d, omega arith)

-- The result of `strip_prefix` is what follows the prefix, exactly where the string starts with it.
pub strip_prefix_lem :
    (str prefix rest : Bytes)
    → (strip_prefix (some str) (some prefix) ≡ some rest) ↔ (str ≡ prefix ++ rest)
unfolding strip_prefix
strip_prefix_lem str prefix rest = (to, from)
  where
    to : strip_prefix (some str) (some prefix) ≡ some rest → str ≡ prefix ++ rest
    to e = ground (arith, sound prefix str)

    from : str ≡ prefix ++ rest → strip_prefix (some str) (some prefix) ≡ some rest
    from e = rw e (ground (arith, complete prefix rest))
