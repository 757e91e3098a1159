-- ===== src/Wifi/Signal.antt =====
-- Signal strength and channel in src/wifi_service.c, and the order of the network list.
use webos_connman_adapter.Base.{
  ℕ, zero, suc, ◌+◌, ◌-◌, ◌*◌, ◌/◌, ◌≤◌, ◌≡◌, ◌↔◌, ◌⊎◌, refl, Bool, true, false, ◌&&◌, not, none,
  ltb, leb, if◌then◌else◌, is_some, arith,
}
use webos_connman_adapter.Service.Info.{ℤ, pos, negsuc}
use webos_connman_adapter.Service.State.{Service}

abbrev pub mid_signal_range_low : ℕ
mid_signal_range_low = 55

abbrev pub mid_signal_range_high : ℕ
mid_signal_range_high = 65

-- The argument is a `guchar` in every call, so it is not below 0.
unfoldable pub signal_strength_to_bars : ℕ → ℕ
signal_strength_to_bars strength =
    if ltb 0 strength && ltb strength mid_signal_range_low
    then 1
    else if leb mid_signal_range_low strength && ltb strength mid_signal_range_high
    then 2
    else if leb mid_signal_range_high strength
    then 3
    else 0

-- The frequency is in MHz; one below 0 is in neither band.
unfoldable pub convert_frequency_to_channel : ℤ → ℤ
convert_frequency_to_channel (negsuc n) = negsuc 0
convert_frequency_to_channel (pos freq) =
    if leb 2412 freq && leb freq 2484
    then pos ((freq - 2412) / 5 + 1)
    else if leb 5170 freq && leb freq 5825
    then pos ((freq - 5170) / 5 + 34)
    else negsuc 0

-- `a - b` on two numbers of a byte.
abbrev pub difference : ℕ → ℕ → ℤ
difference a b = if leb b a then pos (a - b) else negsuc (b - a - 1)

unfoldable pub compare_signal_strength : Service → Service → ℤ
compare_signal_strength service1 service2 =
    if not (is_some service2.name)
    then negsuc 0
    else if not (is_some service1.name)
    then pos 1
    else difference service2.strength service1.strength

-- `<= 0`: a sort by such a result keeps the first one in front.
abbrev pub is_not_after : ℤ → Bool
is_not_after (pos zero) = true
is_not_after (pos (suc n)) = false
is_not_after (negsuc n) = true

abbrev pub goes_first : Service → Service → Bool
goes_first s t = is_not_after (compare_signal_strength s t)

-- The comparison orders services: one that has a name goes before another one with a name exactly
-- if it is not weaker, and before every hidden one; any two services compare, and transitively.
pub compare_signal_strength_lem :
    (s t u : Service)
    → ((goes_first s t ≡ true)
        ↔ ((t.name ≡ none) ⊎ ((is_some s.name ≡ true) × (t.strength ≤ s.strength))))
      × ((goes_first s t ≡ true) ⊎ (goes_first t s ≡ true))
      × (goes_first s t ≡ true → goes_first t u ≡ true → goes_first s u ≡ true)
unfolding compare_signal_strength
compare_signal_strength_lem s t u =
    ((λ e. ground arith, λ e. ground arith), ground arith, λ e g. ground arith)

-- A stronger signal has no fewer bars, and there are no bars exactly without a signal and at most
-- three.
pub signal_strength_to_bars_lem :
    (a b : ℕ)
    → (a ≤ b → signal_strength_to_bars a ≤ signal_strength_to_bars b)
      × ((signal_strength_to_bars a ≡ 0) ↔ (a ≡ 0))
      × (signal_strength_to_bars a ≤ 3)
unfolding signal_strength_to_bars
signal_strength_to_bars_lem a b = ground arith

-- The channels 1 to 13 of the 2.4 GHz band and 34 to 165 of the 5 GHz band are found from their
-- centre frequencies; for the centre frequency of channel 14, 2484 MHz, the result is 15.
pub convert_frequency_to_channel_lem :
    (n : ℕ)
    → (1 ≤ n → n ≤ 13 → convert_frequency_to_channel (pos (2407 + 5 * n)) ≡ pos n)
      × (34 ≤ n → n ≤ 165 → convert_frequency_to_channel (pos (5000 + 5 * n)) ≡ pos n)
      × (convert_frequency_to_channel (pos 2484) ≡ pos 15)
unfolding convert_frequency_to_channel
convert_frequency_to_channel_lem n = (λ a b. ground arith, λ a b. ground arith, refl)
