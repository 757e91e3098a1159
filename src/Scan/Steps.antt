-- ===== src/Scan/Steps.antt =====
-- The histories of the scanner: the calls of src/wifi_scan.c that src/wifi_service.c makes, the
-- timer, the replies of Scan calls, the release of technologies, and the clock.
use webos_connman_adapter.Base.{ℕ, ◌+◌, ◌<◌, ◌≡◌, Bool, true, Option, some, String, is_some, arith}
use webos_connman_adapter.Scan.State.{Technology, Scanner, initial}
use webos_connman_adapter.Scan.Ops.{
  wifi_scan_now, wifi_scan_now_p2p, wifi_scan_execute_when_scan_done, scan_timeout_cb,
  wifi_scan_add_interval, wifi_scan_check_and_reset_interval, wifi_scan_remove_interval,
  wifi_scan_stop, wifi_scan_start, connman_technology_scan_callback, connman_technology_free,
}
use webos_connman_adapter.Scan.Invariant.{
  Inv, initial-Inv, wifi_scan_now-Inv, wifi_scan_now_p2p-Inv, execute-Inv, scan_timeout_cb-Inv,
  add-Inv, check-Inv, remove-Inv, stop-Inv, start-Inv, reply-Inv, free-Inv,
}

-- The timer fires when it is armed, a reply comes for a call that is pending.
pub data Step (s : Scanner) : Scanner → Type 0 where
  scan : Step s (wifi_scan_now s).0
  scan_p2p : Step s (wifi_scan_now_p2p s).0
  execute : (callback : ℕ) → Step s (wifi_scan_execute_when_scan_done callback s)
  timer : is_some s.timeout_source ≡ true → Step s (scan_timeout_cb s)
  reply : (t : ℕ) → 0 < (s.techs t).calls_pending → Step s (connman_technology_scan_callback t s)
  add :
      (source : Option String) (interval : ℕ) → Step s (wifi_scan_add_interval source interval s).0
  check :
      (source : String) {s' : Scanner} {ok : Bool}
      → wifi_scan_check_and_reset_interval source s ≡ some (s', ok)
      → Step s s'
  remove : (source : String) → Step s (wifi_scan_remove_interval source s).0
  stop : Step s (wifi_scan_stop s)
  start : (tech : Option ℕ) → Step s (wifi_scan_start tech s)
  free : (t : ℕ) → Step s (connman_technology_free t s)
  tick : (n : ℕ) → Step s (record s { clock = s.clock + n })

pub data Reach (techs : ℕ → Technology) (clock : ℕ) : Scanner → Type 0 where
  here : Reach techs clock (initial techs clock)
  next : {s s' : Scanner} → Reach techs clock s → Step s s' → Reach techs clock s'

-- One operation keeps the invariant.
Step-Inv : {s s' : Scanner} → Step s s' → Inv s → Inv s'
Step-Inv {s} scan v = wifi_scan_now-Inv s v
Step-Inv {s} scan_p2p v = wifi_scan_now_p2p-Inv s v
Step-Inv {s} (execute callback) v = execute-Inv callback s v
Step-Inv {s} (timer h) v = scan_timeout_cb-Inv s v
Step-Inv {s} (reply t h) v = reply-Inv t s v
Step-Inv {s} (add source interval) v = add-Inv source interval s v
Step-Inv {s} (check source e) v = check-Inv source s v e
Step-Inv {s} (remove source) v = remove-Inv source s v
Step-Inv {s} stop v = stop-Inv s v
Step-Inv {s} (start tech) v = start-Inv tech s v
Step-Inv {s} (free t) v = free-Inv t s v
Step-Inv (tick n) v = ground arith

-- In every history of scanner operations the subscribers have intervals above 0 and the current
-- interval is the least of them (0 without subscribers); a started scanner with an interval has
-- its timer armed, and no timer is armed without an interval; `scan_is_p2p` and
-- `regular_scan_pending` are never set.
pub Reach-Inv : {techs : ℕ → Technology} {clock : ℕ} {s : Scanner} → Reach techs clock s → Inv s
Reach-Inv {techs} {clock} here = initial-Inv techs clock
Reach-Inv (next r st) = Step-Inv st (Reach-Inv r)

-- Whatever scan is running, also a p2p scan, a request for a regular scan succeeds and changes
-- nothing, not even a pending flag, and a request for a p2p scan is queued.
pub running_absorbs :
    {techs : ℕ → Technology} {clock : ℕ} {s : Scanner}
    → Reach techs clock s
    → s.scan_running ≡ true
    → (wifi_scan_now s ≡ (s, true))
      × (wifi_scan_now_p2p s ≡ (record s { p2p_scan_pending = true }, true))
unfolding wifi_scan_now wifi_scan_now_p2p
running_absorbs {s = s} r h =
    let v = Reach-Inv r in (ground (arith, v.never_p2p), ground (arith, v.never_p2p))
