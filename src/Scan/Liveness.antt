-- ===== src/Scan/Liveness.antt =====
-- Scans go on: what the timer does, and what a stop followed by a start does.
use webos_connman_adapter.Base.{
  ℕ, ◌+◌, ◌<◌, ◌≡◌, true, false, none, some, is_some, ◌==◌, if◌then◌else◌, Bool-cases, inl, inr,
  arith,
}
use webos_connman_adapter.Scan.State.{Technology, Scanner}
use webos_connman_adapter.Scan.Ops.{
  wifi_scan_now, wifi_scan_now_p2p, scan_done_callback, connman_technology_scan_callback,
  wifi_scan_is_scanning, scan_timeout_cb, wifi_scan_stop, wifi_scan_start,
}
use webos_connman_adapter.Scan.Steps.{Reach, Reach-Inv}
use webos_connman_adapter.Scan.Effects.{scans, runs}

-- In every history: when the timer of a started scanner fires while no scan runs, one Scan call is
-- made and the scan runs, and the timer is armed again with the current interval.
pub timer_scans :
    {techs : ℕ → Technology} {clock : ℕ} {s : Scanner} (t : ℕ)
    → Reach techs clock s
    → s.wifi_tech ≡ some t
    → is_some s.timeout_source ≡ true
    → s.scan_running ≡ false
    → let s' = scan_timeout_cb s in
      (scans s'.effects ≡ scans s.effects + 1)
      × (wifi_scan_is_scanning s' ≡ true)
      × (s'.timeout_source ≡ some s.current_scan_interval)
unfolding scan_timeout_cb wifi_scan_now wifi_scan_is_scanning
timer_scans {s = s} t r e armed idle = let v = Reach-Inv r in ground (arith, v.needed, v.never_p2p)

-- In every history: a scanner with subscribers that is stopped and started again with a
-- technology makes one Scan call at once, whatever went before, and its timer is armed with the
-- current interval; stopped without subscribers, it makes none and has no timer.
pub restart_scans :
    {techs : ℕ → Technology} {clock : ℕ} {s : Scanner} (t : ℕ)
    → Reach techs clock s
    → let s' = wifi_scan_start (some t) (wifi_scan_stop s) in
      (0 < s.current_scan_interval
        → (scans s'.effects ≡ scans s.effects + 1)
          × (wifi_scan_is_scanning s' ≡ true)
          × (s'.timeout_source ≡ some s.current_scan_interval))
      × (s.current_scan_interval ≡ 0
          → (scans s'.effects ≡ scans s.effects) × (s'.timeout_source ≡ none))
unfolding wifi_scan_start wifi_scan_stop scan_timeout_cb wifi_scan_now wifi_scan_is_scanning
restart_scans {s = s} t r =
    let v = Reach-Inv r in (λ h. ground (arith, v.never_p2p), λ h. ground arith)

-- The callback has run once more, no other one has, none waits and no scan runs.
abbrev pub HasRun : ℕ → Scanner → Scanner → Type 0
HasRun c s t =
    (runs c t.effects ≡ runs c s.effects + 1)
    × ((d : ℕ) → (d == c) ≡ false → runs d t.effects ≡ runs d s.effects)
    × (t.scan_done_callback_fn ≡ none)
    × (wifi_scan_is_scanning t ≡ false)

-- In every history: a callback that waits for a running scan runs once the technology has replied,
-- and where a p2p scan is queued, once the technology of that scan has replied too; it runs exactly
-- once, and no other callback in its place. The technology that replies is there with its handler,
-- and the one that scans is there.
pub callback_runs :
    {techs : ℕ → Technology} {clock : ℕ} {s : Scanner} (c t u : ℕ)
    → Reach techs clock s
    → s.scan_done_callback_fn ≡ some c
    → s.scan_running ≡ true
    → (s.techs t).removed ≡ false
    → (s.techs t).handle_after_scan_fn ≡ true
    → s.wifi_tech ≡ some u
    → (s.techs u).removed ≡ false
    → let replied = connman_technology_scan_callback t s in
      let over =
        if s.p2p_scan_pending then connman_technology_scan_callback u replied else replied in
      HasRun c s over
unfolding connman_technology_scan_callback scan_done_callback wifi_scan_now_p2p
    wifi_scan_is_scanning
callback_runs {s = s} c t u r waiting running there handled at_hand kept =
    let v = Reach-Inv r in
    elim (Bool-cases s.p2p_scan_pending) [
      | inl e ↦ rw e (
        ground (arith, e, v.none_queued),
        λ d apart. ground (arith, e, v.none_queued, apart),
        ground (arith, e, v.none_queued),
        ground (arith, e, v.none_queued),
      )
      | inr e ↦ rw e (
        ground (arith, e, v.none_queued),
        λ d apart. ground (arith, e, v.none_queued, apart),
        ground (arith, e, v.none_queued),
        ground (arith, e, v.none_queued),
      )
    ]
