-- ===== src/Pan/Ends.antt =====
-- A connect request of src/pan_service.c comes to its end.
use webos_connman_adapter.Base.{◌≡◌, none}
use webos_connman_adapter.Manager.State.{Manager}
use webos_connman_adapter.Pan.Connect.{ConnectRequest, Pan}
use webos_connman_adapter.Pan.Answers.{answers, Step, timeout, Reach, here, next}

-- A timeout runs while there is no manager: the function returns before it looks at the request.
abbrev pub Misses : {p p' : Pan} → Step p p' → Type 0
Misses {p} (timeout r again h) = p.manager ≡ none
Misses _ = ⊥

-- No timeout has run while connman was away.
abbrev pub IsServed : {p : Pan} → Reach p → Type 0
IsServed here = Unit
IsServed (next h st) = IsServed h × (¬ Misses st)

abbrev pub IsOver : ConnectRequest → Pan → Type 0
IsOver q p = (p.current_connect_req ≡ none) × (answers q.message p.replies ≡ 1)
