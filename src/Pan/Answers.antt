-- ===== src/Pan/Answers.antt =====
-- Every message that src/pan_service.c receives to connect or disconnect is answered once.
use webos_connman_adapter.Base.{
  ◌≡◌, ℕ, suc, ◌+◌, ◌-◌, ◌<◌, ◌==◌, ltb, Bool, true, false, List, [], ◌∷◌, Option, none, some,
  if◌then◌else◌, is_some, Bytes,
}
use webos_connman_adapter.Common.{Reply}
use webos_connman_adapter.Manager.State.{Manager}
use webos_connman_adapter.Connection.State.{Remote}
use webos_connman_adapter.Pan.Connect.{
  ConnectRequest, Pan, handle_pan_connect_command, handle_pan_disconnect_command,
  service_connect_callback, handle_failed_connection_request,
}

-- How many of the replies are to the message.
abbrev pub answers : ℕ → List (ℕ × Reply) → ℕ
answers message [] = 0
answers message (r ∷ rs) =
    let rest = answers message rs in if r.0 == message then suc rest else rest

-- One, if the message is that of the current request.
abbrev pub waits : ℕ → Option ConnectRequest → ℕ
waits message none = 0
waits message (some q) = if q.message == message then 1 else 0

abbrev pub one_if : Bool → ℕ
one_if true = 1
one_if false = 0

abbrev pub receive : Pan → Pan
receive p = record p { received = suc p.received }

abbrev pub initial : Pan
initial = record {
  manager = none;
  current_connect_req = none;
  calls = 0;
  timeouts = 0;
  replies = [];
  received = 0;
}

-- The connect call of a request has come back, or its timeout has run; `again` is whether GLib
-- keeps the timeout for another run.
abbrev pub called : Bool → Pan → Pan
called success p = service_connect_callback success (record p { calls = p.calls - 1 })

abbrev pub timed_out : Remote → Bool → Pan → Pan
timed_out r again p =
    handle_failed_connection_request r (if again then p else record p { timeouts = p.timeouts - 1 })

-- A message comes, a connect call comes back, a timeout runs, or the manager changes: under signals
-- of connman, or as connman comes and goes, when it is NULL. What connman answers may be different
-- in each step.
pub data Step (p : Pan) : Pan → Type 0 where
  connect :
      (r : Remote) (address : Bytes)
      → Step p (receive (handle_pan_connect_command r address p.received p))
  disconnect :
      (r : Remote) (works : Bool) (address : Bytes)
      → Step p (receive (handle_pan_disconnect_command r works address p.received p))
  connected : (success : Bool) → 0 < p.calls → Step p (called success p)
  timeout : (r : Remote) (again : Bool) → 0 < p.timeouts → Step p (timed_out r again p)
  change : (o : Option Manager) → Step p (record p { manager = o })

pub data Reach : Pan → Type 0 where
  here : Reach initial
  next : {p p' : Pan} → Reach p → Step p p' → Reach p'

-- Every message received has its one reply, or is that of the current request.
abbrev pub IsAnswered : Pan → Type 0
IsAnswered p =
    (message : ℕ)
    → answers message p.replies + waits message p.current_connect_req
      ≡ one_if (ltb message p.received)

-- The current request waits for a connect call or a timeout.
abbrev pub IsPending : Pan → Type 0
IsPending p = is_some p.current_connect_req ≡ true → 0 < p.calls + p.timeouts
