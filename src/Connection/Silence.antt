-- ===== src/Connection/Silence.antt =====
-- When `connectionmanager_send_status_to_subscribers` sends nothing.
use webos_connman_adapter.Base.{
  ℕ, suc, ◌≡◌, refl, Bool, true, false, Option, none, some, if◌then◌else◌, length, is_some, ◌⊎◌,
  Bool-cases, inl, inr, arith,
}
use webos_connman_adapter.Service.State.{Service}
use webos_connman_adapter.Manager.State.{Manager}
use webos_connman_adapter.Connection.State.{Remote, Connection}
use webos_connman_adapter.Connection.Reply.{get_connected}
use webos_connman_adapter.Connection.Send.{
  is_same_check, is_skipped, check_online_checking, send_status,
  connectionmanager_send_status_to_subscribers,
}

-- A status that is sent is one message pair.
length-send_status :
    (r : Remote) (c : Connection) {m : Manager}
    → c.manager ≡ some m
    → (length (send_status r c).sent ≡ suc (length c.sent)) × ((send_status r c).shown ≡ c.shown)
unfolding send_status
length-send_status r c e = rw e (refl, refl)

length-send_blocked :
    (r : Remote) (c : Connection) {m : Manager}
    → c.manager ≡ some m
    → c.block_getstatus_response ≡ true
    → length (connectionmanager_send_status_to_subscribers r c).sent
      ≡ (if (check_online_checking r m c).0 then length c.sent else suc (length c.sent))
unfolding connectionmanager_send_status_to_subscribers
length-send_blocked r c {m} e b =
    rw (b, e)
      elim (Bool-cases (check_online_checking r m c).0) [
        | inl skipped ↦ rw skipped refl
        | inr sends ↦ rw sends refl
      ]

skipped-length :
    (o p : Option Service) (a b : Bool) (n : ℕ)
    → let k = if is_skipped o p a b then n else suc n in
      (o ≡ none → p ≡ none → k ≡ suc n)
      × ((is_some o ≡ true) ⊎ (is_some p ≡ true)
          → is_same_check o a ≡ true
          → is_same_check p b ≡ true
          → k ≡ n)
      × ((is_same_check o a ≡ false) ⊎ (is_same_check p b ≡ false) → k ≡ suc n)
skipped-length none none a b n = ground arith
skipped-length none (some t) a b n = ground arith
skipped-length (some s) none a b n = ground arith
skipped-length (some s) (some t) a b n = ground arith

send-blocked :
    (r : Remote) (c : Connection) {m : Manager}
    → c.manager ≡ some m
    → c.block_getstatus_response ≡ true
    → (connectionmanager_send_status_to_subscribers r c).shown ≡ c.shown
unfolding connectionmanager_send_status_to_subscribers
send-blocked r c {m} e b =
    rw (b, e)
      elim (Bool-cases (check_online_checking r m c).0) [
        | inl skipped ↦ rw skipped refl
        | inr sends ↦ rw sends refl
      ]

-- A blocked call keeps what was shown last. It sends nothing while the online checks of the connected wired and wifi services,
-- of which there is one at least, go on as they were; it sends the status where one of them has
-- changed, and also where neither a wired nor a wifi service is connected.
pub blocked_call :
    (r : Remote) (c : Connection) (m : Manager)
    → c.manager ≡ some m
    → c.block_getstatus_response ≡ true
    → let wired = (get_connected r m.wired_services).0 in
      let wifi = (get_connected r m.wifi_services).0 in
      let same_wired = is_same_check wired c.wired_online_checking_status in
      let same_wifi = is_same_check wifi c.wifi_online_checking_status in
      let t = connectionmanager_send_status_to_subscribers r c in
      (wired ≡ none → wifi ≡ none → length t.sent ≡ suc (length c.sent))
      × ((is_some wired ≡ true) ⊎ (is_some wifi ≡ true)
          → same_wired ≡ true
          → same_wifi ≡ true
          → length t.sent ≡ length c.sent)
      × ((same_wired ≡ false) ⊎ (same_wifi ≡ false) → length t.sent ≡ suc (length c.sent))
      × (t.shown ≡ c.shown)
unfolding check_online_checking
blocked_call r c m e b =
    let (apart, same, changed) =
      skipped-length (get_connected r m.wired_services).0 (get_connected r m.wifi_services).0
        c.wired_online_checking_status c.wifi_online_checking_status (length c.sent) in
    rw (length-send_blocked r c e b) (apart, same, changed, send-blocked r c e b)
