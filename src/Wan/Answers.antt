-- ===== src/Wan/Answers.antt =====
-- Every message that src/wan_service.c receives to connect or disconnect is answered once.
use webos_connman_adapter.Base.{
  ◌≡◌, refl, ap, ◌∙◌, ℕ, suc, ◌+◌, ◌==◌, ltb, Bool, true, List, [], ◌∷◌, ◌++◌, some, String,
  if◌then◌else◌, is_some, Bytes, arith,
}
use webos_connman_adapter.Manager.State.{Manager}
use webos_connman_adapter.Pan.Connect.{ConnectRequest}
use webos_connman_adapter.Pan.Answers.{answers, one_if}
use webos_connman_adapter.Wan.Connect.{
  Wan, handle_wan_connect_command, handle_wan_disconnect_command, connect_wan_service,
  disconnect_wan_service, service_connect_callback,
}

-- How many of the calls are for the message.
abbrev pub waiting : ℕ → List ConnectRequest → ℕ
waiting message [] = 0
waiting message (q ∷ qs) =
    let rest = waiting message qs in if q.message == message then suc rest else rest

waiting-remove :
    (message : ℕ) (before : List ConnectRequest) (q : ConnectRequest) (later : List ConnectRequest)
    → waiting message (before ++ q ∷ later)
      ≡ waiting message (before ++ later) + one_if (q.message == message)
waiting-remove message [] q later = ground arith
waiting-remove message (b ∷ before) q later = ground (arith, waiting-remove message before q later)

abbrev pub receive : Wan → Wan
receive w = record w { received = suc w.received }

abbrev pub initial : Manager → Wan
initial m = record { manager = some m; calls = []; replies = []; received = 0 }

-- A message comes, one of the connect calls comes back, or the manager changes under signals.
pub data Step (w : Wan) : Wan → Type 0 where
  connect :
      (utf8 : String → Bytes) (name : Bytes)
      → Step w (receive (handle_wan_connect_command utf8 name w.received w))
  disconnect :
      (utf8 : String → Bytes) (works : Bool) (name : Bytes)
      → Step w (receive (handle_wan_disconnect_command utf8 works name w.received w))
  connected :
      (success : Bool) (before : List ConnectRequest) (q : ConnectRequest)
      (later : List ConnectRequest)
      → w.calls ≡ before ++ q ∷ later
      → Step w (service_connect_callback success q (record w { calls = before ++ later }))
  change : (m : Manager) → Step w (record w { manager = some m })

pub data Reach (m : Manager) : Wan → Type 0 where
  here : Reach m (initial m)
  next : {w w' : Wan} → Reach m w → Step w w' → Reach m w'

pub record Inv (w : Wan) : Type 0 where
  pub present : is_some w.manager ≡ true
  pub answered :
      (message : ℕ)
      → answers message w.replies + waiting message w.calls ≡ one_if (ltb message w.received)

connect-Inv :
    (utf8 : String → Bytes) (name : Bytes) (w : Wan)
    → Inv w
    → Inv (receive (handle_wan_connect_command utf8 name w.received w))
unfolding handle_wan_connect_command connect_wan_service
connect-Inv utf8 name w v = record {
  present = ground (arith, v.present);
  answered = λ message. ground (arith, v.present, v.answered message);
}

disconnect-Inv :
    (utf8 : String → Bytes) (works : Bool) (name : Bytes) (w : Wan)
    → Inv w
    → Inv (receive (handle_wan_disconnect_command utf8 works name w.received w))
unfolding handle_wan_disconnect_command disconnect_wan_service
disconnect-Inv utf8 works name w v = record {
  present = ground (arith, v.present);
  answered = λ message. ground (arith, v.present, v.answered message);
}

connected-Inv :
    (success : Bool) (before : List ConnectRequest) (q : ConnectRequest)
    (later : List ConnectRequest) (w : Wan)
    → w.calls ≡ before ++ q ∷ later
    → Inv w
    → Inv (service_connect_callback success q (record w { calls = before ++ later }))
unfolding service_connect_callback
connected-Inv success before q later w e v = record {
  present = ground (arith, v.present);
  answered = λ message.
      let held = ap (λ qs. waiting message qs) e ∙ waiting-remove message before q later in
      ground (arith, v.present, v.answered message, held);
}

Step-Inv : {w w' : Wan} → Step w w' → Inv w → Inv w'
Step-Inv {w} (connect utf8 name) v = connect-Inv utf8 name w v
Step-Inv {w} (disconnect utf8 works name) v = disconnect-Inv utf8 works name w v
Step-Inv {w} (connected success before q later e) v = connected-Inv success before q later w e v
Step-Inv (change m) v = record { present = refl; answered = v.answered }

Reach-Inv : {m : Manager} {w : Wan} → Reach m w → Inv w
Reach-Inv here = record { present = refl; answered = λ message. ground arith }
Reach-Inv (next r st) = Step-Inv st (Reach-Inv r)

-- In every history each message received has exactly one reply, or none and exactly one connect call
-- that has not come back; no other message has a reply or a call.
pub calls-answered :
    {m : Manager} {w : Wan} (message : ℕ)
    → Reach m w
    → answers message w.replies + waiting message w.calls ≡ one_if (ltb message w.received)
calls-answered message h = let v = Reach-Inv h in v.answered message
