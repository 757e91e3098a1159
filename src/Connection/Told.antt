-- ===== src/Connection/Told.antt =====
-- What `check_update_is_needed` compares with the status that was shown last.
use webos_connman_adapter.Base.{
  ℕ, suc, ◌≡◌, refl, Bool, true, false, ◌&&◌, ◌||◌, not, List, [], ◌∷◌, Option, none, some, is_some,
  ltb, All, any, any-false, arith,
}
use webos_connman_adapter.Common.{is_wifi_powered}
use webos_connman_adapter.Service.Kind.{p2p}
use webos_connman_adapter.Service.State.{
  Service, change_getstatus, connman_service_is_changed, same_type, same_bool,
  connman_service_is_connected,
}
use webos_connman_adapter.Manager.State.{Manager}
use webos_connman_adapter.Connection.State.{Remote, Shown}
use webos_connman_adapter.Connection.Reply.{get_connected_if}
use webos_connman_adapter.Connection.Changes.{
  check_service_for_update, check_list, check_cellular, findings_of, reasons, shown_after,
}

-- No service that the list reports as connected is a P2P peer.
abbrev pub NoPeer : Remote → Bool → List Service → Type 0
NoPeer r powered ss =
    (s : Service) → (get_connected_if powered r ss).0 ≡ some s → same_type s.type p2p ≡ false

-- No service that the list reports as connected has a mark for getstatus.
abbrev pub NoMark : Remote → Bool → List Service → Type 0
NoMark r powered ss =
    (s : Service)
    → (get_connected_if powered r ss).0 ≡ some s
    → connman_service_is_changed change_getstatus s ≡ false

pub same_bool-eq : (a b : Bool) → not (same_bool a b) ≡ false → a ≡ b
same_bool-eq true true h = refl
same_bool-eq true false h = cc
same_bool-eq false true h = cc
same_bool-eq false false h = refl

check_some-unneeded :
    (no_groups : Bool) (s : Service) (tech : Bool)
    → same_type s.type p2p ≡ false
    → (check_service_for_update no_groups (some s) tech).0 ≡ false
    → (tech ≡ true) × (connman_service_is_changed change_getstatus s ≡ false)
unfolding check_service_for_update
check_some-unneeded no_groups s tech plain h = ground arith

-- An update that is not needed: the list is as connected as before, and nothing is marked.
check_service_for_update-unneeded :
    (no_groups : Bool) (o : Option Service) (tech : Bool)
    → ((s : Service) → o ≡ some s → same_type s.type p2p ≡ false)
    → (check_service_for_update no_groups o tech).0 ≡ false
    → (tech ≡ is_some o)
      × ((s : Service) → o ≡ some s → connman_service_is_changed change_getstatus s ≡ false)
unfolding check_service_for_update
check_service_for_update-unneeded no_groups none tech plain h = (h, λ s e. cc)
check_service_for_update-unneeded no_groups (some s) tech plain h =
    ground (arith, check_some-unneeded no_groups s tech (plain s refl) h)

p2p-unneeded :
    (no_groups : Bool) (o : Option Service) (tech : Bool)
    → (check_service_for_update no_groups o tech).0 ≡ false
    → (is_some o && not no_groups) ≡ true
    → tech ≡ true
unfolding check_service_for_update
p2p-unneeded no_groups none tech h e = cc
p2p-unneeded no_groups (some s) tech h e = ground arith

check_list-unneeded :
    (r : Remote) (no_groups powered tech : Bool) (ss : List Service)
    → NoPeer r powered ss
    → (check_list r no_groups powered tech ss).needed ≡ false
    → (tech ≡ (check_list r no_groups powered tech ss).connected) × NoMark r powered ss
unfolding check_list
check_list-unneeded r no_groups powered tech ss plain h =
    check_service_for_update-unneeded no_groups (get_connected_if powered r ss).0 tech plain h

-- No connected service of the list has a mark for getstatus.
abbrev pub ConnectedUnmarked : Service → Type 0
ConnectedUnmarked s =
    connman_service_is_connected s ≡ true → connman_service_is_changed change_getstatus s ≡ false

check_cellular-unneeded :
    (no_groups wan : Bool) (k : ℕ) (ss : List Service)
    → All (λ s. same_type s.type p2p ≡ false) ss
    → (check_cellular no_groups wan k ss).0 ≡ false
    → All ConnectedUnmarked ss
unfolding check_cellular
check_cellular-unneeded no_groups wan k [] plain h = tt
check_cellular-unneeded no_groups wan k (s ∷ ss) plain h = ground (
  arith,
  check_cellular-unneeded no_groups wan k ss plain.1,
  check_cellular-unneeded no_groups wan (suc k) ss plain.1,
  check_some-unneeded no_groups s (wan || ltb 0 (suc k)) plain.0,
)

-- The lists other than that of the p2p services hold no P2P peer.
abbrev pub Sorted : Remote → Manager → Type 0
Sorted r m =
    NoPeer r (is_wifi_powered (some m)) m.wifi_services
    × NoPeer r true m.wired_services
    × NoPeer r true m.bluetooth_services
    × All (λ s. same_type s.type p2p ≡ false) m.cellular_services

-- What is compared has not changed: the shown status is the present one, and no connected service is
-- marked.
abbrev pub Unchanged : Remote → Shown → Shown → Manager → Type 0
Unchanged r old new m =
    (old.wifi_tethering ≡ new.wifi_tethering)
    × (old.pan_tethering ≡ new.pan_tethering)
    × (old.online_status ≡ new.online_status)
    × (old.wifi_connected ≡ new.wifi_connected)
    × (old.wired_connected ≡ new.wired_connected)
    × (old.wired_plugged ≡ new.wired_plugged)
    × (new.p2p_connected ≡ true → old.p2p_connected ≡ true)
    × (old.cellular_powered ≡ new.cellular_powered)
    × (old.pan_connected ≡ new.pan_connected)
    × (old.wan_connected ≡ new.wan_connected)
    × NoMark r (is_wifi_powered (some m)) m.wifi_services
    × NoMark r true m.wired_services
    × NoMark r true m.bluetooth_services
    × All ConnectedUnmarked m.cellular_services

pub findings-unneeded :
    (r : Remote) (m : Manager) (old : Shown)
    → let f = findings_of r m old in
      Sorted r f.manager
      → any (λ b. b) (reasons f old) ≡ false
      → Unchanged r old (shown_after f) f.manager
unfolding findings_of reasons shown_after
findings-unneeded r m old sorted h =
    let f = findings_of r m old in
    let m' = f.manager in
    let q = any-false (λ b. b) (reasons f old) h in
    let p = q.1.1.1 in
    let powered = is_wifi_powered (some m') in
    let wifi =
      check_list-unneeded r f.no_groups powered old.wifi_connected m'.wifi_services sorted.0 p.0 in
    let wired =
      check_list-unneeded r f.no_groups true old.wired_connected m'.wired_services sorted.1 p.1.0 in
    let pan =
      check_list-unneeded r f.no_groups true old.pan_connected m'.bluetooth_services sorted.2
        p.1.1.1.1.1.0 in
    (
      same_bool-eq _ _ q.0,
      same_bool-eq _ _ q.1.0,
      same_bool-eq _ _ q.1.1.0,
      wifi.0,
      wired.0,
      ground (arith, p.1.1.0),
      p2p-unneeded f.no_groups (get_connected_if powered r m'.p2p_services).0 old.p2p_connected
          p.1.1.1.0,
      same_bool-eq _ _ p.1.1.1.1.0,
      pan.0,
      same_bool-eq _ _ p.1.1.1.1.1.1.1.0,
      wifi.1,
      wired.1,
      pan.1,
      check_cellular-unneeded f.no_groups old.wan_connected 0 m'.cellular_services sorted.3
          p.1.1.1.1.1.1.0,
    )
