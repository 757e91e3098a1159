-- ===== src/Scan/Effects.antt =====
-- The Scan calls that the scanner makes, and the callbacks that it runs.
use webos_connman_adapter.Base.{
  ℕ, suc, ◌+◌, ◌<◌, ◌≡◌, refl, true, false, ◌||◌, List, [], ◌∷◌, Option, none, some, String, ltb,
  ◌==◌, if◌then◌else◌, is_some, arith,
}
use webos_connman_adapter.Scan.State.{Effect, scan_called, callback_ran, Scanner, min_scan_interval}
use webos_connman_adapter.Scan.Ops.{
  wifi_scan_now, wifi_scan_now_p2p, wifi_scan_execute_when_scan_done, scan_timeout_cb,
  scan_done_callback, scan_unless_recent, append_subscriber, reschedule_shorter, reschedule_longer,
  wifi_scan_add_interval, wifi_scan_check_and_reset_interval, wifi_scan_remove_interval,
  wifi_scan_stop, wifi_scan_start, connman_technology_scan_callback, connman_technology_free,
}
use webos_connman_adapter.Scan.Invariant.{append_subscriber-pos}
use webos_connman_adapter.Scan.Steps.{
  Step, scan, scan_p2p, execute, timer, reply, add, check, remove, stop, start, free, tick,
}

-- How many Scan calls a record of effects holds.
abbrev pub scans : List Effect → ℕ
scans [] = 0
scans (scan_called t ∷ es) = suc (scans es)
scans (callback_ran c ∷ es) = scans es

-- How often one callback has run.
abbrev pub runs : ℕ → List Effect → ℕ
runs c [] = 0
runs c (scan_called t ∷ es) = runs c es
runs c (callback_ran d ∷ es) = let rest = runs c es in if d == c then suc rest else rest

-- One, if it is the callback that waits.
abbrev pub waits : ℕ → Option ℕ → ℕ
waits c none = 0
waits c (some d) = if d == c then 1 else 0

-- How often a callback has run or is waiting to.
abbrev pub accepted : ℕ → Scanner → ℕ
accepted c s = runs c s.effects + waits c s.scan_done_callback_fn

abbrev pub IsReply : {s s' : Scanner} → Step s s' → Type 0
IsReply (reply t h) = Unit
IsReply _ = ⊥

add-scans :
    (source : Option String) (interval : ℕ) (s : Scanner)
    → s.scan_running ≡ true
    → scans (wifi_scan_add_interval source interval s).0.effects ≡ scans s.effects
unfolding wifi_scan_add_interval append_subscriber reschedule_shorter scan_unless_recent
add-scans none interval s h = refl
add-scans (some source) interval s h = ground arith

-- While a scan is running, nothing but the reply of a Scan call makes another Scan call.
pub one_scan_at_a_time :
    {s s' : Scanner} (st : Step s s')
    → s.scan_running ≡ true
    → ¬ IsReply st
    → scans s'.effects ≡ scans s.effects
unfolding wifi_scan_now wifi_scan_now_p2p wifi_scan_execute_when_scan_done scan_timeout_cb
    wifi_scan_check_and_reset_interval wifi_scan_remove_interval reschedule_longer wifi_scan_stop
    wifi_scan_start connman_technology_free
one_scan_at_a_time scan h n = ground arith
one_scan_at_a_time scan_p2p h n = ground arith
one_scan_at_a_time (execute callback) h n = ground arith
one_scan_at_a_time (timer e) h n = ground arith
one_scan_at_a_time (reply t e) h n = absurd (n tt)
one_scan_at_a_time {s} (add source interval) h n = add-scans source interval s h
one_scan_at_a_time (check source e) h n = ground arith
one_scan_at_a_time (remove source) h n = ground arith
one_scan_at_a_time stop h n = refl
one_scan_at_a_time (start tech) h n = ground arith
one_scan_at_a_time (free t) h n = ground arith
one_scan_at_a_time (tick n) h _ = refl

abbrev pub IsStop : {s s' : Scanner} → Step s s' → Type 0
IsStop stop = Unit
IsStop _ = ⊥

-- A callback that is handed over while an earlier one still waits.
abbrev pub Overwrites : {s s' : Scanner} → Step s s' → Type 0
Overwrites {s} (execute callback) =
    (s.scan_running ≡ true) × (is_some s.scan_done_callback_fn ≡ true)
Overwrites _ = ⊥

-- How often the operation takes the callback from a client.
abbrev pub handed_over : {s s' : Scanner} → ℕ → Step s s' → ℕ
handed_over c (execute callback) = if callback == c then 1 else 0
handed_over c _ = 0

add-accepted :
    (c : ℕ) (source : Option String) (interval : ℕ) (s : Scanner)
    → accepted c (wifi_scan_add_interval source interval s).0 ≡ accepted c s
unfolding wifi_scan_add_interval append_subscriber reschedule_shorter scan_unless_recent
add-accepted c none interval s = refl
add-accepted c (some source) interval s = ground arith

-- But for `wifi_scan_stop`, and for a callback handed over while another one waits, every operation
-- keeps, for each callback, how often it has run or waits to run, with one more where it is this
-- callback that is handed over: none is lost, none runs twice, and none runs in another's place.
pub callbacks_kept :
    {s s' : Scanner} (c : ℕ) (st : Step s s')
    → ¬ IsStop st
    → ¬ Overwrites st
    → accepted c s' ≡ accepted c s + handed_over c st
unfolding wifi_scan_now wifi_scan_now_p2p wifi_scan_execute_when_scan_done scan_timeout_cb
    wifi_scan_check_and_reset_interval wifi_scan_remove_interval reschedule_longer wifi_scan_start
    connman_technology_free connman_technology_scan_callback scan_done_callback
callbacks_kept c scan n o = ground arith
callbacks_kept c scan_p2p n o = ground arith
callbacks_kept c (execute callback) n o = ground arith
callbacks_kept c (timer e) n o = ground arith
callbacks_kept c (reply t e) n o = ground arith
callbacks_kept {s} c (add source interval) n o = omega (arith, add-accepted c source interval s)
callbacks_kept c (check source e) n o = ground arith
callbacks_kept c (remove source) n o = ground arith
callbacks_kept c stop n o = absurd (n tt)
callbacks_kept c (start tech) n o = ground arith
callbacks_kept c (free t) n o = ground arith
callbacks_kept c (tick k) n o = omega arith

-- With a subscriber that is not NULL and an interval above 0, a started scanner that is idle
-- accepts the subscription, and makes a Scan call at once exactly if there was no scan yet or the
-- last one is more than `min_scan_interval` ago.
pub add_interval_scans :
    (source : String) (interval t : ℕ) (s : Scanner)
    → 0 < interval
    → s.wifi_tech ≡ some t
    → s.scan_running ≡ false
    → let (s', accepted) = wifi_scan_add_interval (some source) interval s in
      (accepted ≡ true)
      × (scans s'.effects
          ≡ scans s.effects
            + (if s.scan_time == 0 || ltb (s.scan_time + min_scan_interval) s.clock then 1 else 0))
unfolding wifi_scan_add_interval append_subscriber reschedule_shorter scan_unless_recent
    wifi_scan_now
add_interval_scans source interval t s h e r =
    ground (arith, append_subscriber-pos source interval s h)
