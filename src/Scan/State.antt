-- ===== src/Scan/State.antt =====
-- The static variables of src/wifi_scan.c and what they are about: the technology object that a
-- scan is asked of, the subscribers with their intervals, the timer, and a record of the calls
-- that leave the module.
use webos_connman_adapter.Base.{ℕ, Bool, false, List, [], Option, none, String, ◌==◌, if◌then◌else◌}

-- `scan_subscriber_data_t`. `interval` is in ms; `next_result` is the ms of the monotonic clock.
pub record Subscriber : Type 0 where
  pub subscriber : String
  pub interval : ℕ
  pub next_result : ℕ

-- The fields of `connman_technology_t` that an asynchronous scan uses. The only function that
-- `handle_after_scan_fn` is ever set to is `scan_done_callback`, so the field is a flag.
pub record Technology : Type 0 where
  pub handle_after_scan_fn : Bool
  pub calls_pending : ℕ
  pub removed : Bool

-- What leaves the module: a Scan call on a technology, a run of a client's callback.
pub data Effect : Type 0 where
  scan_called : ℕ → Effect
  callback_ran : ℕ → Effect

-- `wifi_tech` points to a technology, `techs` is the heap of those; `timeout_source` holds the
-- delay of the armed timer, `none` stands for source id 0; `scan_done_callback_fn` with its data
-- is one id; `clock` is `g_get_monotonic_time () / 1000`; `effects` is newest first.
pub record Scanner : Type 0 where
  pub wifi_tech : Option ℕ
  pub scan_subscribers : Option (List Subscriber)
  pub timeout_source : Option ℕ
  pub current_scan_interval : ℕ
  pub scan_time : ℕ
  pub scan_running : Bool
  pub scan_is_p2p : Bool
  pub regular_scan_pending : Bool
  pub p2p_scan_pending : Bool
  pub scan_done_callback_fn : Option ℕ
  pub techs : ℕ → Technology
  pub clock : ℕ
  pub effects : List Effect

abbrev pub min_scan_interval : ℕ
min_scan_interval = 1000

-- The initial values of the static variables, at the first tick of a clock, over a given heap.
abbrev pub initial : (ℕ → Technology) → ℕ → Scanner
initial techs clock = record {
  wifi_tech = none;
  scan_subscribers = none;
  timeout_source = none;
  current_scan_interval = 0;
  scan_time = 0;
  scan_running = false;
  scan_is_p2p = false;
  regular_scan_pending = false;
  p2p_scan_pending = false;
  scan_done_callback_fn = none;
  techs = techs;
  clock = clock;
  effects = [];
}

abbrev pub idle_technology : Technology
idle_technology = record { handle_after_scan_fn = false; calls_pending = 0; removed = false }

-- A write through a technology pointer.
abbrev pub set_tech : (ℕ → Technology) → ℕ → Technology → ℕ → Technology
set_tech techs t v u = if u == t then v else techs u
