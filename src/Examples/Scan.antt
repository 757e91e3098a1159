-- ===== src/Examples/Scan.antt =====
-- Runs of the scanner of src/wifi_scan.c.
use webos_connman_adapter.Base.{
  ℕ, ◌+◌, ◌≤◌, ◌<◌, ◌≡◌, refl, true, false, List, [], ◌∷◌, none, some, length, All, keep, ltb,
  String, is_some, if◌then◌else◌, ◌==◌, ◌||◌, arith,
}
use mathlib.Core.List.{Perm}
use webos_connman_adapter.Scan.State.{
  Subscriber, Technology, Scanner, initial, idle_technology, min_scan_interval,
}
use webos_connman_adapter.Scan.Interval.{
  compute_from, compute_scan_interval, remove_subscribers, remove_from, remove_index_fast,
}
use webos_connman_adapter.Scan.Ops.{
  wifi_scan_stop, wifi_scan_now, wifi_scan_now_p2p, wifi_scan_execute_when_scan_done,
  scan_timeout_cb, wifi_scan_is_scanning, scan_unless_recent, append_subscriber, reschedule_shorter,
  wifi_scan_add_interval, wifi_scan_start, connman_technology_scan_callback,
}
use webos_connman_adapter.Scan.Minimum.{Attains, compute_scan_interval-minimum}
use webos_connman_adapter.Scan.Removal.{other_source, remove_subscribers_lem}
use webos_connman_adapter.Scan.Invariant.{Inv}
use webos_connman_adapter.Scan.Steps.{
  reply, scan, scan_p2p, execute, start, add, Reach, here, next, Reach-Inv, running_absorbs,
}
use webos_connman_adapter.Scan.Liveness.{timer_scans, restart_scans, HasRun, callback_runs}
use webos_connman_adapter.Scan.Effects.{
  scans, accepted, one_scan_at_a_time, callbacks_kept, add_interval_scans,
}

abbrev techs : ℕ → Technology
techs = λ t. idle_technology

-- Technology 0 is there, and a client wants a scan every ten seconds: the first one runs.
abbrev started : Scanner
started = wifi_scan_start (some 0) (initial techs 5)

abbrev scanning : Scanner
scanning = (wifi_scan_add_interval (some "settings") 10000 started).0

abbrev history : Reach techs 5 scanning
history = next (next here (start (some 0))) (add (some "settings") 10000)

-- A client waits for the end of the scan, and a p2p scan is asked for.
abbrev waiting : Scanner
waiting = wifi_scan_execute_when_scan_done 7 scanning

abbrev queued : Scanner
queued = (wifi_scan_now_p2p waiting).0

scanning-running : scanning.scan_running ≡ true
unfolding wifi_scan_add_interval wifi_scan_start append_subscriber scan_unless_recent
    reschedule_shorter compute_scan_interval compute_from wifi_scan_now
scanning-running = refl

scanning-idle_callback : is_some scanning.scan_done_callback_fn ≡ false
unfolding wifi_scan_add_interval wifi_scan_start append_subscriber scan_unless_recent
    reschedule_shorter compute_scan_interval compute_from wifi_scan_now
scanning-idle_callback = refl

Reach-Inv_example : Inv scanning
Reach-Inv_example = Reach-Inv history

running_absorbs_example :
    (wifi_scan_now scanning ≡ (scanning, true))
    × (wifi_scan_now_p2p scanning ≡ (record scanning { p2p_scan_pending = true }, true))
running_absorbs_example = running_absorbs history scanning-running

one_scan_at_a_time_example : scans (wifi_scan_now scanning).0.effects ≡ scans scanning.effects
one_scan_at_a_time_example = one_scan_at_a_time {s = scanning} scan scanning-running (λ r. r)

callbacks_kept_example :
    accepted 7 (wifi_scan_execute_when_scan_done 7 scanning) ≡ accepted 7 scanning + 1
callbacks_kept_example =
    callbacks_kept {s = scanning} 7 (execute 7) (λ r. r)
      (λ o. ground (arith, o.1, scanning-idle_callback))

callback_runs_example : HasRun 7 queued (
    if queued.p2p_scan_pending
    then connman_technology_scan_callback 0 (connman_technology_scan_callback 0 queued)
    else connman_technology_scan_callback 0 queued)
unfolding wifi_scan_add_interval wifi_scan_start append_subscriber scan_unless_recent
    reschedule_shorter compute_scan_interval compute_from wifi_scan_now wifi_scan_now_p2p
    wifi_scan_execute_when_scan_done
callback_runs_example =
    callback_runs 7 0 0 (next (next history (execute 7)) scan_p2p) refl refl refl refl refl refl

add_interval_scans_example :
    let (s', ok) = wifi_scan_add_interval (some "settings") 10000 started in
    (ok ≡ true)
    × (scans s'.effects
        ≡ scans started.effects
          + (if started.scan_time == 0 || ltb (started.scan_time + min_scan_interval) started.clock
              then 1
              else 0))
unfolding wifi_scan_start scan_timeout_cb
add_interval_scans_example = add_interval_scans "settings" 10000 0 started (omega arith) refl refl

-- The scan of the history has ended, and the timer is armed.
abbrev idle : Scanner
idle = connman_technology_scan_callback 0 scanning

idle-pending : 0 < (scanning.techs 0).calls_pending
unfolding wifi_scan_add_interval wifi_scan_start append_subscriber scan_unless_recent
    reschedule_shorter compute_scan_interval compute_from wifi_scan_now
idle-pending = omega arith

timer_scans_example :
    let s' = scan_timeout_cb idle in
    (scans s'.effects ≡ scans idle.effects + 1)
    × (wifi_scan_is_scanning s' ≡ true)
    × (s'.timeout_source ≡ some idle.current_scan_interval)
unfolding wifi_scan_add_interval wifi_scan_start append_subscriber scan_unless_recent
    reschedule_shorter compute_scan_interval compute_from wifi_scan_now
    connman_technology_scan_callback
timer_scans_example = timer_scans 0 (next history (reply 0 idle-pending)) refl refl refl

restart_scans_example :
    let s' = wifi_scan_start (some 0) (wifi_scan_stop scanning) in
    (0 < scanning.current_scan_interval
      → (scans s'.effects ≡ scans scanning.effects + 1)
        × (wifi_scan_is_scanning s' ≡ true)
        × (s'.timeout_source ≡ some scanning.current_scan_interval))
    × (scanning.current_scan_interval ≡ 0
        → (scans s'.effects ≡ scans scanning.effects) × (s'.timeout_source ≡ none))
restart_scans_example = restart_scans 0 history

abbrev entry : String → ℕ → Subscriber
entry source interval = record { subscriber = source; interval = interval; next_result = 0 }

abbrev three : List Subscriber
three = entry "b" 200 ∷ entry "a" 50 ∷ entry "b" 300 ∷ []

remove_subscribers_example :
    Perm (remove_subscribers "b" three).0 (keep (other_source "b") three)
    × ((remove_subscribers "b" three).1 ≡ true
        → length (keep (other_source "b") three) < length three)
    × ((remove_subscribers "b" three).1 ≡ false → keep (other_source "b") three ≡ three)
remove_subscribers_example = remove_subscribers_lem "b" three

compute_scan_interval-minimum_example :
    (0 < compute_scan_interval three)
    × All (λ e. compute_scan_interval three ≤ e.interval) three
    × Attains (compute_scan_interval three) three
compute_scan_interval-minimum_example =
    compute_scan_interval-minimum (entry "b" 200) (entry "a" 50 ∷ entry "b" 300 ∷ [])
      (omega arith, (omega arith, (omega arith, tt)))

-- The run of the two loops on it.
three-runs :
    (compute_scan_interval three ≡ 50) × (remove_subscribers "b" three ≡ (entry "a" 50 ∷ [], true))
unfolding compute_scan_interval compute_from remove_subscribers remove_from remove_index_fast
three-runs = (refl, refl)
