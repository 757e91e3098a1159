-- ===== src/Scan/Interval.antt =====
-- The loops of src/wifi_scan.c over the array of subscribers.
use webos_connman_adapter.Base.{
  ℕ, zero, suc, ◌+◌, Bool, true, false, ◌&&◌, ◌||◌, List, [], ◌∷◌, String, str_eq, ltb, ◌==◌,
  if◌then◌else◌, length,
}
use webos_connman_adapter.Scan.State.{Subscriber}

-- The loop of `compute_scan_interval`, from a value of `min` on.
unfoldable pub compute_from : ℕ → List Subscriber → ℕ
compute_from min [] = min
compute_from min (d ∷ ds) =
    compute_from (if min == 0 || ltb d.interval min then d.interval else min) ds

unfoldable pub compute_scan_interval : List Subscriber → ℕ
compute_scan_interval ds = compute_from 0 ds

-- `g_array_remove_index_fast` on the rest of the array from the index on: the last element of
-- the array takes the removed place.
abbrev pub last_of : Subscriber → List Subscriber → Subscriber
last_of x [] = x
last_of x (y ∷ ys) = last_of y ys

abbrev pub all_but_last : Subscriber → List Subscriber → List Subscriber
all_but_last x [] = []
all_but_last x (y ∷ ys) = x ∷ all_but_last y ys

unfoldable pub remove_index_fast : List Subscriber → List Subscriber
remove_index_fast [] = []
remove_index_fast (y ∷ ys) = last_of y ys ∷ all_but_last y ys

-- The loop of `wifi_scan_remove_interval` on the array from index `i` on, with `length` less `i`
-- rounds of fuel: after a removal `i` stays, and `length` falls.
unfoldable pub remove_from : ℕ → String → List Subscriber → List Subscriber × Bool
unfolding remove_index_fast
remove_from zero source ds = (ds, false)
remove_from (suc n) source [] = ([], false)
remove_from (suc n) source (d ∷ ds) =
    let removed = remove_from n source (remove_index_fast ds) in
    let kept = remove_from n source ds in
    if str_eq d.subscriber source then (removed.0, true) else (d ∷ kept.0, kept.1)

unfoldable pub remove_subscribers : String → List Subscriber → List Subscriber × Bool
unfolding remove_from
remove_subscribers source ds = remove_from (length ds) source ds

-- The loop of `wifi_scan_check_and_reset_interval`. `next_result < curtime + interval - 100` is
-- over signed 64-bit numbers, so the 100 stands on the left here, where nothing is cut off at 0.
unfoldable pub reset_first : String → ℕ → ℕ → List Subscriber → List Subscriber × Bool
reset_first source curtime current [] = ([], false)
reset_first source curtime current (d ∷ ds) =
    let rest = reset_first source curtime current ds in
    if str_eq d.subscriber source && ltb (d.next_result + 100) (curtime + current)
    then (record d { next_result = curtime + d.interval } ∷ ds, true)
    else (d ∷ rest.0, rest.1)
