-- ===== src/Scan/Invariant.antt =====
-- What holds of the scanner between any two of its operations.
use webos_connman_adapter.Base.{
  ℕ, ◌<◌, ◌≡◌, refl, Bool, true, false, List, [], ◌∷◌, Option, none, some, String, ltb, ◌==◌, ◌||◌,
  if◌then◌else◌, is_some, All, All-append, arith,
}
use webos_connman_adapter.Scan.State.{Subscriber, Technology, Scanner, initial}
use webos_connman_adapter.Scan.Interval.{compute_from, compute_scan_interval, reset_first}
use webos_connman_adapter.Scan.Ops.{
  wifi_scan_now, wifi_scan_now_p2p, wifi_scan_execute_when_scan_done, scan_timeout_cb,
  scan_done_callback, wifi_scan_add_interval, wifi_scan_check_and_reset_interval,
  wifi_scan_remove_interval, wifi_scan_stop, wifi_scan_start, connman_technology_scan_callback,
  connman_technology_free, subscribers_of, append_subscriber, reschedule_shorter, reschedule_longer,
  scan_unless_recent,
}
use webos_connman_adapter.Scan.Minimum.{HasInterval, compute_scan_interval-append}
use webos_connman_adapter.Scan.Removal.{
  remove_subscribers-HasInterval, remove_subscribers-pos, remove_subscribers-unchanged,
}

-- The subscribers have intervals above 0 and the current interval is the least of them; a scanner
-- that is started and has an interval has its timer armed, and no timer is armed without an
-- interval; no scan counts as a p2p scan, and no regular scan is queued behind one.
pub record Inv (s : Scanner) : Type 0 where
  pub positive : All HasInterval (subscribers_of s.scan_subscribers)
  pub exact : s.current_scan_interval ≡ compute_scan_interval (subscribers_of s.scan_subscribers)
  pub armed :
      is_some s.wifi_tech ≡ true → 0 < s.current_scan_interval → is_some s.timeout_source ≡ true
  pub needed : is_some s.timeout_source ≡ true → 0 < s.current_scan_interval
  pub never_p2p : s.scan_is_p2p ≡ false
  pub none_queued : s.regular_scan_pending ≡ false

pub initial-Inv : (techs : ℕ → Technology) (clock : ℕ) → Inv (initial techs clock)
unfolding compute_scan_interval compute_from
initial-Inv techs clock = ground arith

pub wifi_scan_now-Inv : (s : Scanner) → Inv s → Inv (wifi_scan_now s).0
unfolding wifi_scan_now
wifi_scan_now-Inv s v = ground arith

pub wifi_scan_now_p2p-Inv : (s : Scanner) → Inv s → Inv (wifi_scan_now_p2p s).0
unfolding wifi_scan_now_p2p
wifi_scan_now_p2p-Inv s v = ground arith

scan_done_callback-Inv : (s : Scanner) → Inv s → Inv (scan_done_callback s)
unfolding scan_done_callback
scan_done_callback-Inv s v = ground arith

pub reply-Inv : (t : ℕ) (s : Scanner) → Inv s → Inv (connman_technology_scan_callback t s)
unfolding connman_technology_scan_callback
reply-Inv t s v = ground arith

pub free-Inv : (t : ℕ) (s : Scanner) → Inv s → Inv (connman_technology_free t s)
unfolding connman_technology_free
free-Inv t s v = ground arith

pub execute-Inv :
    (callback : ℕ) (s : Scanner) → Inv s → Inv (wifi_scan_execute_when_scan_done callback s)
unfolding wifi_scan_execute_when_scan_done
execute-Inv callback s v = ground arith

pub scan_timeout_cb-Inv : (s : Scanner) → Inv s → Inv (scan_timeout_cb s)
unfolding scan_timeout_cb
scan_timeout_cb-Inv s v = ground arith

append_subscriber-HasInterval :
    (source : String) (interval : ℕ) (s : Scanner)
    → 0 < interval
    → All HasInterval (subscribers_of s.scan_subscribers)
    → All HasInterval (subscribers_of (append_subscriber source interval s).scan_subscribers)
unfolding append_subscriber
append_subscriber-HasInterval source interval s h a = All-append HasInterval _ _ a (h, tt)

scan_unless_recent-Inv : (s : Scanner) → Inv s → Inv (scan_unless_recent s).0
unfolding scan_unless_recent
scan_unless_recent-Inv s v = ground arith

reschedule_shorter-Inv :
    (source : String) (interval : ℕ) (s : Scanner)
    → 0 < interval
    → Inv s
    → let s' = append_subscriber source interval s in
      Inv (reschedule_shorter (compute_scan_interval (subscribers_of s'.scan_subscribers)) s')
unfolding append_subscriber reschedule_shorter
reschedule_shorter-Inv source interval s h v =
    let ds = subscribers_of s.scan_subscribers in
    let entry : Subscriber = record {
      subscriber = source;
      interval = interval;
      next_result = s.clock;
    } in
    ground (
      arith,
      compute_scan_interval-append ds entry,
      append_subscriber-HasInterval source interval s h v.positive,
    )

pub append_subscriber-pos :
    (source : String) (interval : ℕ) (s : Scanner)
    → 0 < interval
    → 0
      < compute_scan_interval
          (subscribers_of (append_subscriber source interval s).scan_subscribers)
unfolding append_subscriber
append_subscriber-pos source interval s h =
    let ds = subscribers_of s.scan_subscribers in
    let entry : Subscriber = record {
      subscriber = source;
      interval = interval;
      next_result = s.clock;
    } in
    ground (arith, compute_scan_interval-append ds entry)

pub add-Inv :
    (source : Option String) (interval : ℕ) (s : Scanner)
    → Inv s
    → Inv (wifi_scan_add_interval source interval s).0
unfolding wifi_scan_add_interval
add-Inv none interval s v = v
add-Inv (some source) interval s v = ground (
  arith,
  append_subscriber-pos source interval s,
  scan_unless_recent-Inv (
      reschedule_shorter
        (compute_scan_interval
          (subscribers_of (append_subscriber source interval s).scan_subscribers))
        (append_subscriber source interval s)),
  reschedule_shorter-Inv source interval s,
)

reset_first-HasInterval :
    (source : String) (curtime current : ℕ) (ds : List Subscriber)
    → All HasInterval ds
    → All HasInterval (reset_first source curtime current ds).0
unfolding reset_first
reset_first-HasInterval source curtime current [] a = tt
reset_first-HasInterval source curtime current (d ∷ ds) a =
    ground (arith, reset_first-HasInterval source curtime current ds a.1)

compute_from-reset_first :
    (m : ℕ) (source : String) (curtime current : ℕ) (ds : List Subscriber)
    → compute_from m (reset_first source curtime current ds).0 ≡ compute_from m ds
unfolding compute_from reset_first
compute_from-reset_first m source curtime current [] = refl
compute_from-reset_first m source curtime current (d ∷ ds) =
    let next = if m == 0 || ltb d.interval m then d.interval else m in
    ground (arith, compute_from-reset_first next source curtime current ds)

pub check-Inv :
    (source : String) (s : Scanner) {s' : Scanner} {ok : Bool}
    → Inv s
    → wifi_scan_check_and_reset_interval source s ≡ some (s', ok)
    → Inv s'
unfolding wifi_scan_check_and_reset_interval compute_scan_interval
check-Inv source s v e =
    let ds = subscribers_of s.scan_subscribers in
    ground (
      arith,
      compute_from-reset_first 0 source s.clock s.current_scan_interval ds,
      reset_first-HasInterval source s.clock s.current_scan_interval ds v.positive,
    )

pub remove-Inv :
    (source : String) (s : Scanner) → Inv s → Inv (wifi_scan_remove_interval source s).0
unfolding wifi_scan_remove_interval reschedule_longer
remove-Inv source s v =
    let ds = subscribers_of s.scan_subscribers in
    ground (
      arith,
      remove_subscribers-HasInterval source ds v.positive,
      remove_subscribers-pos source ds v.positive,
      remove_subscribers-unchanged source ds,
    )

pub stop-Inv : (s : Scanner) → Inv s → Inv (wifi_scan_stop s)
unfolding wifi_scan_stop
stop-Inv s v = ground arith

pub start-Inv : (tech : Option ℕ) (s : Scanner) → Inv s → Inv (wifi_scan_start tech s)
unfolding wifi_scan_start
start-Inv tech s v = ground arith
