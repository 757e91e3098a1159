-- ===== src/Wifi/Updates.antt =====
-- `manager_services_changed_callback` of src/wifi_service.c, which tells clients of changed services.
use webos_connman_adapter.Base.{
  ◌>>=◌, >>=-eq-some, ◌≡◌, ◌∙◌, ◌⊎◌, inl, inr, Bool-cases, Bool, true, false, ◌&&◌, List, [], ◌∷◌,
  Option, some, String, if◌then◌else◌, Bytes, All, arith,
}
use webos_connman_adapter.Profile.State.{Profile}
use webos_connman_adapter.Service.Info.{ℤ}
use webos_connman_adapter.Service.State.{
  Service, change_findnetworks, connman_service_unset_changed, connman_service_is_changed,
}
use webos_connman_adapter.Manager.State.{Manager, ServicesChanged}
use webos_connman_adapter.Wifi.Networks.{NetworkInfo, populate_wifi_networks}

-- A message to the subscribers of a method.
pub data Message : Type 0 where
  findnetworks getnetworks : List NetworkInfo → Message
  connection_status wan_status wan_contexts : Message

-- The manager, and the messages that have been sent, newest first.
pub record Listing : Type 0 where
  pub manager : Manager
  pub sent : List Message

unfoldable pub check_wifi_services_for_updates : List Service → Bool
unfolding connman_service_is_changed
check_wifi_services_for_updates [] = false
check_wifi_services_for_updates (s ∷ ss) =
    let rest = check_wifi_services_for_updates ss in
    if connman_service_is_changed change_findnetworks s then true else rest

unfoldable pub mark_all_wifi_services_as_unchanged : List Service → List Service
unfolding connman_service_unset_changed
mark_all_wifi_services_as_unchanged [] = []
mark_all_wifi_services_as_unchanged (s ∷ ss) =
    connman_service_unset_changed change_findnetworks s ∷ mark_all_wifi_services_as_unchanged ss

abbrev pub unmark : Listing → Listing
unmark l =
    let m = l.manager in
    record l {
      manager = record m { wifi_services = mark_all_wifi_services_as_unchanged m.wifi_services };
    }

abbrev send : Bool → Message → Listing → Listing
send b message l = if b then record l { sent = message ∷ l.sent } else l

module _ (utf8 : String → Bytes) (profiles : List Profile)
    (g_slist_sort : (Service → Service → ℤ) → List Service → List Service) where
  unfoldable pub send_findnetworks_status_to_subscribers : Listing → Option Listing
  send_findnetworks_status_to_subscribers l = do
    (infos, m) ← populate_wifi_networks utf8 profiles g_slist_sort false l.manager
    some (record { manager = m; sent = findnetworks infos ∷ l.sent })

  unfoldable pub send_getnetworks_status_to_subscribers : Listing → Option Listing
  send_getnetworks_status_to_subscribers l = do
    (infos, m) ← populate_wifi_networks utf8 profiles g_slist_sort true l.manager
    some (record { manager = m; sent = getnetworks infos ∷ l.sent })

  -- The first `if` of the callback, its condition met.
  unfoldable pub tell_networks : Listing → Option Listing
  unfolding send_findnetworks_status_to_subscribers send_getnetworks_status_to_subscribers
      mark_all_wifi_services_as_unchanged
  tell_networks l = do
    l' ← send_findnetworks_status_to_subscribers l
    l'' ← send_getnetworks_status_to_subscribers l'
    some (unmark l'')

  unfoldable pub manager_services_changed_callback : ServicesChanged → Listing → Option Listing
  unfolding tell_networks check_wifi_services_for_updates
  manager_services_changed_callback flags l = do
    l' ←
        (if flags.wifi && check_wifi_services_for_updates l.manager.wifi_services
          then tell_networks l
          else some l)
    some (
        send flags.bluetooth connection_status (
          send flags.cellular wan_contexts (
            send flags.cellular wan_status
              (send flags.cellular connection_status (send flags.ethernet connection_status l')))))

-- The messages with networks among those that have been sent.
abbrev pub network_messages : List Message → List Message
network_messages [] = []
network_messages (findnetworks is ∷ ms) = findnetworks is ∷ network_messages ms
network_messages (getnetworks is ∷ ms) = getnetworks is ∷ network_messages ms
network_messages (_ ∷ ms) = network_messages ms

abbrev pub IsUnmarked : Service → Type 0
IsUnmarked s = s.change_mask.findnetworks ≡ false

unmark-IsUnmarked : (ss : List Service) → All IsUnmarked (mark_all_wifi_services_as_unchanged ss)
unfolding mark_all_wifi_services_as_unchanged
unmark-IsUnmarked [] = tt
unmark-IsUnmarked (s ∷ ss) = (ground arith, unmark-IsUnmarked ss)

check_false : (ss : List Service) → check_wifi_services_for_updates ss ≡ false → All IsUnmarked ss
unfolding check_wifi_services_for_updates
check_false [] h = tt
check_false (s ∷ ss) h = ground (arith, check_false ss)

module _ (utf8 : String → Bytes) (profiles : List Profile)
    (sort : (Service → Service → ℤ) → List Service → List Service) where
  -- The networks in range to the subscribers of findnetworks, then all to those of getnetworks.
  abbrev pub AreTold : Listing → Listing → Type 0
  AreTold l l' =
      (infos : List NetworkInfo) × (m : Manager) × (all : List NetworkInfo) × (m' : Manager)
      × (populate_wifi_networks utf8 profiles sort false l.manager ≡ some (infos, m))
      × (populate_wifi_networks utf8 profiles sort true m ≡ some (all, m'))
      × (network_messages l'.sent ≡ getnetworks all ∷ findnetworks infos ∷ network_messages l.sent)

  tell_networks_lem :
      (l : Listing) {l' : Listing}
      → tell_networks utf8 profiles sort l ≡ some l'
      → All IsUnmarked l'.manager.wifi_services × AreTold l l'
  unfolding tell_networks
  tell_networks_lem l {l'} e =
      let (l1, e1, f1) =
        >>=-eq-some (send_findnetworks_status_to_subscribers utf8 profiles sort l) _ e in
      let ((infos1, m1), p1, q1) =
        >>=-eq-some (populate_wifi_networks utf8 profiles sort false l.manager) _ e1 in
      let (l2, e2, f2) =
        >>=-eq-some (send_getnetworks_status_to_subscribers utf8 profiles sort l1) _ f1 in
      let ((infos2, m2), p2, q2) =
        >>=-eq-some (populate_wifi_networks utf8 profiles sort true l1.manager) _ e2 in
      (
        ground (arith, q1, q2, f2, unmark-IsUnmarked m2.wifi_services),
        (infos1, m1, infos2, m2, p1, ground (arith, p2, q1), ground (arith, q1, q2, f2)),
      )

  -- Told of changed wifi services, `manager_services_changed_callback`, where it returns, leaves no
  -- wifi service marked. If one was marked, it sends the networks in range to the subscribers of
  -- findnetworks and then, the saved ones with them, to those of getnetworks, each list once; if
  -- none was, it sends no networks.
  pub manager_services_changed_callback_lem :
      (flags : ServicesChanged) (l : Listing) {l' : Listing}
      → flags.wifi ≡ true
      → manager_services_changed_callback utf8 profiles sort flags l ≡ some l'
      → All IsUnmarked l'.manager.wifi_services
        × ((check_wifi_services_for_updates l.manager.wifi_services ≡ true × AreTold l l')
            ⊎ (check_wifi_services_for_updates l.manager.wifi_services ≡ false
                × network_messages l'.sent ≡ network_messages l.sent))
  unfolding manager_services_changed_callback
  manager_services_changed_callback_lem flags l {l'} f e =
      let wifi_services = l.manager.wifi_services in
      let (l1, e1, f1) =
        >>=-eq-some
          (if flags.wifi && check_wifi_services_for_updates wifi_services
            then tell_networks utf8 profiles sort l
            else some l)
          _ e in
      elim (Bool-cases (check_wifi_services_for_updates wifi_services)) [
        | inl c ↦
            let told : tell_networks utf8 profiles sort l ≡ some l1 = ground (arith, e1, f, c) in
            let (unmarked, (infos, m, all, m', near, far, sent)) = tell_networks_lem l told in
            let same : network_messages l'.sent ≡ network_messages l1.sent = ground (arith, f1) in
            let kept : l'.manager ≡ l1.manager = ground (arith, f1) in
            (rw kept unmarked, inl (c, (infos, m, all, m', near, far, same ∙ sent)))
        | inr c ↦ (
          ground (arith, check_false wifi_services c, f1, e1, f, c),
          inr (c, ground (arith, f1, e1, f, c)),
        )
      ]
