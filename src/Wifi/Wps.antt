-- ===== src/Wifi/Wps.antt =====
-- `generate_new_wpspin` of src/wifi_service.c: a random PIN for
-- Wi-Fi protected setup, seven digits and their checksum.
use webos_connman_adapter.Base.{
  ℕ, zero, suc, ◌+◌, ◌-◌, ◌*◌, ◌/◌, ◌%◌, ◌^◌, ◌<◌, ◌≡◌, refl, sym, ◌∙◌, Bool, true, false, List, [],
  ◌∷◌, ◌++◌, Option, none, some, if◌then◌else◌, ltb, ◌==◌, Bool-cases, inl, inr, arith,
}
use webos_connman_adapter.Service.Info.{ℤ, pos, negsuc}

-- A read of four bytes: the number that they are, or nothing. A number from 2^31 up is a negative
-- `gint`.
abbrev pub is_negative : ℕ → Bool
is_negative n = if ltb n (2 ^ 31) then false else true

-- The loop that reads, from the value that the variable holds; `none` while it has not ended. The
-- result of `fread` is not -1.
unfoldable pub read_pin : List (Option ℕ) → ℕ → Option ℕ
read_pin [] pin = none
read_pin (none ∷ rs) pin = let rest = read_pin rs pin in if is_negative pin then rest else some pin
read_pin (some n ∷ rs) pin = let rest = read_pin rs n in if is_negative n then rest else some n

-- The loop of the checksum, two digits in a round; the first argument is the fuel.
unfoldable pub checksum_loop : ℕ → ℕ → ℕ → ℕ
checksum_loop zero tmppin accum = accum
checksum_loop (suc k) tmppin accum =
    let rest = checksum_loop k (tmppin / 10 / 10) (accum + 3 * (tmppin % 10) + tmppin / 10 % 10) in
    if tmppin == 0 then accum else rest

-- The PIN of a number that has been read. Seven digits take four rounds.
unfoldable pub pin_of : ℕ → ℕ
unfolding checksum_loop
pin_of n =
    let digits = n % 10000000 in
    let accum = checksum_loop 4 digits 0 in digits * 10 + (10 - accum % 10) % 10

-- `opened` is whether /dev/urandom can be opened.
unfoldable pub generate_new_wpspin : Bool → List (Option ℕ) → Option ℤ
unfolding read_pin pin_of
generate_new_wpspin false reads = some (negsuc 0)
generate_new_wpspin true reads = elim (read_pin reads 0) [
  | none ↦ none
  | some n ↦ some (pos (pin_of n))
]

-- The digits of the standard's checksum, from the right: once and three times in turn.
abbrev weighted : ℕ → ℕ → ℕ
weighted zero p = 0
weighted (suc k) p = p % 10 + 3 * (p / 10 % 10) + weighted k (p / 10 / 10)

-- A PIN of eight digits whose weighted digits add up to a multiple of ten.
abbrev pub IsPin : ℕ → Type 0
IsPin p = (p < 100000000) × (weighted 4 p % 10 ≡ 0)

checksum_loop-zero : (k accum : ℕ) → checksum_loop k 0 accum ≡ accum
unfolding checksum_loop
checksum_loop-zero zero accum = refl
checksum_loop-zero (suc k) accum = refl

-- A round is right also where the number has run out.
checksum_loop-suc :
    (k n accum : ℕ)
    → checksum_loop (suc k) n accum
      ≡ checksum_loop k (n / 10 / 10) (accum + 3 * (n % 10) + n / 10 % 10)
unfolding checksum_loop
checksum_loop-suc k zero accum = omega (arith, checksum_loop-zero k (accum + 0 + 0))
checksum_loop-suc k (suc n) accum = ground arith

-- The weights of the loop, which starts at the digit left of the checksum.
abbrev shifted : ℕ → ℕ → ℕ
shifted zero n = 0
shifted (suc k) n = 3 * (n % 10) + n / 10 % 10 + shifted k (n / 10 / 10)

checksum_loop_lem : (k n accum : ℕ) → checksum_loop k n accum ≡ accum + shifted k n
unfolding checksum_loop
checksum_loop_lem zero n accum = omega arith
checksum_loop_lem (suc k) n accum =
    checksum_loop-suc k n accum
    ∙ checksum_loop_lem k (n / 10 / 10) (accum + 3 * (n % 10) + n / 10 % 10)
    ∙ omega arith

weighted-shifted : (n c : ℕ) → n < 10000000 → c < 10 → weighted 4 (n * 10 + c) ≡ c + shifted 4 n
weighted-shifted n c h k =
    let left : (n * 10 + c) / 10 ≡ n = omega (arith, k) in
    let last : (n * 10 + c) % 10 ≡ c = omega (arith, k) in
    let out : n / 10 / 10 / 10 / 10 / 10 / 10 / 10 ≡ 0 = omega (arith, h) in
    rw (left, last, out) (omega arith)

check_digit : (s : ℕ) → (10 - s % 10) % 10 < 10
check_digit s = omega arith

check_digit-sum : (s : ℕ) → ((10 - s % 10) % 10 + s) % 10 ≡ 0
check_digit-sum s = omega arith

pin_of-IsPin : (n : ℕ) → IsPin (pin_of n)
unfolding pin_of
pin_of-IsPin n =
    let digits = n % 10000000 in
    let small : digits < 10000000 = omega arith in
    let s = checksum_loop 4 digits 0 in
    let c = (10 - s % 10) % 10 in
    let sum : s ≡ shifted 4 digits = omega (arith, checksum_loop_lem 4 digits 0) in
    (
      omega (arith, small, check_digit s),
      rw (weighted-shifted digits c small (check_digit s), sym sum) (check_digit-sum s),
    )

read_pin-some :
    (before after : List (Option ℕ)) (n pin : ℕ)
    → is_negative n ≡ false
    → (v : ℕ) × (read_pin (before ++ some n ∷ after) pin ≡ some v)
unfolding read_pin
read_pin-some [] after n pin h = (n, rw h refl)
read_pin-some (none ∷ rs) after n pin h = elim (Bool-cases (is_negative pin)) [
  | inl e ↦ let (v, more) = read_pin-some rs after n pin h in (v, rw (e, more) refl)
  | inr e ↦ (pin, rw e refl)
]
read_pin-some (some m ∷ rs) after n pin h = elim (Bool-cases (is_negative m)) [
  | inl e ↦ let (v, more) = read_pin-some rs after n m h in (v, rw (e, more) refl)
  | inr e ↦ (m, rw e refl)
]

-- Whatever is read before and after: where a number that is not negative is read, the function
-- returns a PIN below 10^8, so of eight digits at most, whose last digit is the checksum of the
-- others.
pub generate_new_wpspin_lem :
    (before after : List (Option ℕ)) (n : ℕ)
    → is_negative n ≡ false
    → (p : ℕ) × (generate_new_wpspin true (before ++ some n ∷ after) ≡ some (pos p)) × IsPin p
unfolding generate_new_wpspin
generate_new_wpspin_lem before after n h =
    let (v, read) = read_pin-some before after n 0 h in
    (pin_of v, rw (generate_new_wpspin, read) refl, pin_of-IsPin v)
