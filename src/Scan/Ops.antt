-- ===== src/Scan/Ops.antt =====
-- The functions of src/wifi_scan.c, each as a function from the state to the new state, and the
-- reply of the Scan call and the release of a technology from src/connman_technology.c.
use webos_connman_adapter.Base.{
  ℕ, ◌+◌, ◌-◌, ◌%◌, ◌^◌, max, Bool, true, false, ◌&&◌, ◌||◌, not, List, [], ◌∷◌, ◌++◌, Option, none,
  some, String, ltb, ◌==◌, if◌then◌else◌, is_some,
}
use webos_connman_adapter.Scan.State.{
  Subscriber, scan_called, callback_ran, Scanner, min_scan_interval, set_tech,
}
use webos_connman_adapter.Scan.Interval.{compute_scan_interval, remove_subscribers, reset_first}

-- `connman_technology_scan_network`: the call is asynchronous, and nothing reports a failure here.
unfoldable pub connman_technology_scan_network : Option ℕ → Scanner → Scanner × Bool
connman_technology_scan_network none s = (s, false)
connman_technology_scan_network (some t) s =
    let tech = s.techs t in
    (
      record s {
        techs = set_tech s.techs t (record tech { calls_pending = tech.calls_pending + 1 });
        effects = scan_called t ∷ s.effects;
      },
      true,
    )

-- `wifi_tech->handle_after_scan_fn = scan_done_callback`.
abbrev pub handle_after_scan : ℕ → Scanner → Scanner
handle_after_scan t s = record s {
  techs = set_tech s.techs t (record (s.techs t) { handle_after_scan_fn = true });
}

-- The last branch of `wifi_scan_now_p2p`, with the technology at hand.
unfoldable pub start_p2p_scan : ℕ → Scanner → Scanner × Bool
unfolding connman_technology_scan_network
start_p2p_scan t s =
    let (s', result) = connman_technology_scan_network (some t) (handle_after_scan t s) in
    let marked = record s' { scan_running = true; p2p_scan_pending = false } in
    let s'' : Scanner = if result then marked else s' in
    (record s'' { scan_time = s''.clock }, result)

unfoldable pub wifi_scan_now_p2p : Scanner → Scanner × Bool
unfolding start_p2p_scan
wifi_scan_now_p2p s =
    if s.scan_running && s.scan_is_p2p
    then (s, true)
    else if s.scan_running && not s.scan_is_p2p
    then (record s { p2p_scan_pending = true }, true)
    else elim s.wifi_tech [ none ↦ (s, false) | some t ↦ start_p2p_scan t s ]

-- The last branch of `wifi_scan_now`.
unfoldable pub start_scan : ℕ → Scanner → Scanner × Bool
unfolding connman_technology_scan_network
start_scan t s =
    let (s', result) = connman_technology_scan_network (some t) (handle_after_scan t s) in
    let marked = record s' { scan_running = true; regular_scan_pending = false } in
    let s'' : Scanner = if result then marked else s' in
    (record s'' { scan_time = s''.clock }, result)

unfoldable pub wifi_scan_now : Scanner → Scanner × Bool
unfolding start_scan
wifi_scan_now s =
    if s.scan_running && not s.scan_is_p2p
    then (s, true)
    else if s.scan_running && s.scan_is_p2p
    then (record s { regular_scan_pending = true }, true)
    else elim s.wifi_tech [ none ↦ (s, false) | some t ↦ start_scan t s ]

unfoldable pub wifi_scan_is_scanning : Scanner → Bool
wifi_scan_is_scanning s = s.scan_running

-- `fn (data)` is the last act of `scan_done_callback`: what it does to the scanner is a later step.
unfoldable pub scan_done_callback : Scanner → Scanner
unfolding wifi_scan_now_p2p wifi_scan_now
scan_done_callback s =
    let done = record s { scan_running = false } in
    if not s.scan_running
    then s
    else if s.p2p_scan_pending
    then (wifi_scan_now_p2p done).0
    else if s.regular_scan_pending
    then (wifi_scan_now done).0
    else elim s.scan_done_callback_fn [
      | none ↦ done
      | some fn ↦ record done {
        scan_done_callback_fn = none;
        effects = callback_ran fn ∷ s.effects;
      }
    ]

unfoldable pub wifi_scan_execute_when_scan_done : ℕ → Scanner → Scanner
wifi_scan_execute_when_scan_done callback s =
    if s.scan_running
    then record s { scan_done_callback_fn = some callback }
    else record s { effects = callback_ran callback ∷ s.effects }

-- `connman_technology_scan_callback`: the reply of a Scan call on technology `t`. A reply is
-- delivered once for each call, so `calls_pending` is not 0 when it is decreased.
unfoldable pub connman_technology_scan_callback : ℕ → Scanner → Scanner
unfolding scan_done_callback
connman_technology_scan_callback t s =
    let tech = s.techs t in
    let s' = record s {
      techs = set_tech s.techs t (record tech { calls_pending = tech.calls_pending - 1 });
    } in
    if tech.removed then s' else if tech.handle_after_scan_fn then scan_done_callback s' else s'

-- `connman_technology_free`, as far as a pending Scan call sees it: with a call in progress the
-- object stays and is marked. Without one its memory goes, and no later step names it.
unfoldable pub connman_technology_free : ℕ → Scanner → Scanner
connman_technology_free t s =
    let tech = s.techs t in
    if ltb 0 tech.calls_pending
    then record s { techs = set_tech s.techs t (record tech { removed = true }) }
    else s

-- `g_timeout_add_full` with the current interval, the end of `scan_timeout_cb`.
unfoldable pub scan_timeout_cb : Scanner → Scanner
unfolding wifi_scan_now
scan_timeout_cb s =
    let s' = (wifi_scan_now (record s { timeout_source = none })).0 in
    if s'.current_scan_interval == 0
    then s'
    else record s' { timeout_source = some s'.current_scan_interval }

-- `scan_subscribers == NULL` makes a new array.
abbrev pub subscribers_of : Option (List Subscriber) → List Subscriber
subscribers_of none = []
subscribers_of (some ds) = ds

-- The rescheduling in the middle of `wifi_scan_add_interval`.
unfoldable pub reschedule_shorter : ℕ → Scanner → Scanner
reschedule_shorter new_interval s =
    if s.current_scan_interval == 0 || ltb new_interval s.current_scan_interval
    then record s { current_scan_interval = new_interval; timeout_source = some new_interval }
    else s

unfoldable pub append_subscriber : String → ℕ → Scanner → Scanner
append_subscriber source interval_ms s =
    let entry : Subscriber = record {
      subscriber = source;
      interval = interval_ms;
      next_result = s.clock;
    } in
    record s { scan_subscribers = some (subscribers_of s.scan_subscribers ++ entry ∷ []) }

-- The end of `wifi_scan_add_interval`: a scan at once, unless the last one has just begun.
unfoldable pub scan_unless_recent : Scanner → Scanner × Bool
unfolding wifi_scan_now
scan_unless_recent s =
    if s.scan_time == 0 || ltb (s.scan_time + min_scan_interval) s.clock
    then wifi_scan_now s
    else (s, true)

unfoldable pub wifi_scan_add_interval : Option String → ℕ → Scanner → Scanner × Bool
wifi_scan_add_interval none interval_ms s = (s, false)
wifi_scan_add_interval (some source) interval_ms s =
    let s' = append_subscriber source interval_ms s in
    let new_interval = compute_scan_interval (subscribers_of s'.scan_subscribers) in
    if interval_ms == 0
    then (s, false)
    else if new_interval == 0
    then (s', false)
    else scan_unless_recent (reschedule_shorter new_interval s')

-- `none` is the read through a NULL `scan_subscribers`.
unfoldable pub wifi_scan_check_and_reset_interval : String → Scanner → Option (Scanner × Bool)
unfolding reset_first
wifi_scan_check_and_reset_interval source s = elim s.scan_subscribers [
  | none ↦ none
  | some ds ↦
      let (ds', ok) = reset_first source s.clock s.current_scan_interval ds in
      some (record s { scan_subscribers = some ds' }, ok)
]

-- The end of `wifi_scan_remove_interval`. `MAX (1, scan_time + new_interval - curtime)` is over
-- signed numbers and cast to `guint`.
unfoldable pub reschedule_longer : ℕ → Scanner → Scanner
reschedule_longer new_interval s =
    let transient = max 1 (s.scan_time + new_interval - s.clock) % 2 ^ 32 in
    let timer : Option ℕ =
      if new_interval == 0
      then none
      else if ltb s.current_scan_interval new_interval
      then some transient
      else s.timeout_source in
    if is_some s.timeout_source
    then record s { timeout_source = timer; current_scan_interval = new_interval }
    else record s { current_scan_interval = new_interval }

unfoldable pub wifi_scan_remove_interval : String → Scanner → Scanner × Bool
wifi_scan_remove_interval source s = elim s.scan_subscribers [
  | none ↦ (s, false)
  | some ds ↦
      let (ds', found) = remove_subscribers source ds in
      let s' = record s { scan_subscribers = some ds' } in
      if found then (reschedule_longer (compute_scan_interval ds') s', true) else (s', false)
]

unfoldable pub wifi_scan_stop : Scanner → Scanner
wifi_scan_stop s = record s {
  wifi_tech = none;
  timeout_source = none;
  scan_running = false;
  scan_done_callback_fn = none;
}

unfoldable pub wifi_scan_start : Option ℕ → Scanner → Scanner
unfolding scan_timeout_cb
wifi_scan_start tech s =
    let s' = record s {
      wifi_tech = tech;
      scan_subscribers = some (subscribers_of s.scan_subscribers);
    } in
    if ltb 0 s'.current_scan_interval && not (is_some s'.timeout_source)
    then scan_timeout_cb s'
    else s'
