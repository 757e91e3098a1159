-- ===== src/Manager/Counts.antt =====
-- How many services of a path the lists hold: what an update and a removal do to that number.
use webos_connman_adapter.Base.{
  ℕ, suc, ◌+◌, ◌≤◌, ◌<◌, ◌≡◌, refl, ap, ◌∙◌, inl, inr, Bool, true, false, List, [], ◌∷◌, ◌++◌,
  Option, none, some, String, str_eq, str_eq_iff, if◌then◌else◌, is_some, Option-cases, arith,
}
use webos_connman_adapter.Service.State.{
  Service, connman_service_advance_state, connman_service_advance_online_state,
}
use webos_connman_adapter.Service.Update.{
  Texts, Property, update_property, connman_service_update_properties, connman_service_new,
}
use webos_connman_adapter.Manager.State.{Manager, Env, ServiceEntry}
use webos_connman_adapter.Manager.Lookup.{
  connman_manager_find_service_by_path, find_service_from_path,
}
use webos_connman_adapter.Manager.Services.{
  add_service_to_list, update_in, is_in, update_service, add_new_service, update_or_add_service,
}

abbrev pub count : String → List Service → ℕ
count q [] = 0
count q (s ∷ ss) = let rest = count q ss in if str_eq s.path q then suc rest else rest

-- In the five lists of services that are there (saved services are another matter).
abbrev pub total : String → Manager → ℕ
total q m =
    count q m.wifi_services
    + count q m.wired_services
    + count q m.p2p_services
    + count q m.bluetooth_services
    + count q m.cellular_services

pub find-count :
    (q : String) (ss : List Service)
    → ((is_in q ss ≡ true) → 0 < count q ss) × ((is_in q ss ≡ false) → count q ss ≡ 0)
unfolding connman_manager_find_service_by_path
find-count q [] = ground arith
find-count q (s ∷ ss) = ground (arith, find-count q ss)

pub find-path :
    (q : String) (ss : List Service) {s : Service}
    → connman_manager_find_service_by_path ss (some q) ≡ some s
    → s.path ≡ q
unfolding connman_manager_find_service_by_path
find-path q [] e = cc
find-path q (x ∷ ss) {s} e = ground (arith, find-path q ss {s = s}, str_eq_iff x.path q)

pub count-append :
    (q : String) (ss : List Service) (s : Service)
    → count q (ss ++ s ∷ []) ≡ count q ss + (if str_eq s.path q then 1 else 0)
count-append q [] s = ground arith
count-append q (x ∷ ss) s = ground (arith, count-append q ss s)

update_property-path :
    (texts : Texts) (p : Property) (s : Service) → (update_property texts p s).path ≡ s.path
unfolding update_property connman_service_advance_state connman_service_advance_online_state
update_property-path texts (Property.state v) s = ground arith
update_property-path texts (Property.online b) s = ground arith
update_property-path texts _ s = ground arith

pub update_properties-path :
    (texts : Texts) (ps : List Property) (s : Service)
    → (connman_service_update_properties texts ps s).path ≡ s.path
unfolding connman_service_update_properties
update_properties-path texts [] s = refl
update_properties-path texts (p ∷ ps) s =
    update_properties-path texts ps (update_property texts p s) ∙ update_property-path texts p s

new-path :
    (texts : Texts) (path : String) (ps : List Property)
    → (connman_service_new texts path ps).path ≡ path
unfolding connman_service_new
new-path texts path ps = update_properties-path texts ps _

count-update_in :
    (env : Env) (q path : String) (ps : List Property) (ss : List Service)
    → count q (update_in env path ps ss) ≡ count q ss
unfolding update_in
count-update_in env q path ps [] = refl
count-update_in env q path ps (s ∷ ss) =
    ground (arith, count-update_in env q path ps ss, update_properties-path env.texts ps s)

total-update_service :
    (env : Env) (q path : String) (ps : List Property) (saved : Bool) (m : Manager)
    → total q (update_service env path ps saved m) ≡ total q m
unfolding update_service
total-update_service env q path ps true m = refl
total-update_service env q path ps false m = ground (
  arith,
  count-update_in env q path ps m.wifi_services,
  count-update_in env q path ps m.wired_services,
  count-update_in env q path ps m.p2p_services,
  count-update_in env q path ps m.bluetooth_services,
  count-update_in env q path ps m.cellular_services,
)

total-add_service_to_list :
    (q : String) (s : Service) (m : Manager)
    → (total q m ≤ total q (add_service_to_list s false m))
      × (total q (add_service_to_list s false m) ≤ total q m + (if str_eq s.path q then 1 else 0))
unfolding add_service_to_list
total-add_service_to_list q s m = ground (
  arith,
  count-append q m.wifi_services s,
  count-append q m.wired_services s,
  count-append q m.p2p_services s,
  count-append q m.bluetooth_services s,
  count-append q m.cellular_services s,
)

chain_none :
    (a b c d e : Option Service)
    → (if is_some a
        then a
        else if is_some b
        then b
        else if is_some c
        then c
        else if is_some d
        then d
        else e)
      ≡ none
    → (is_some a ≡ false)
      × (is_some b ≡ false)
      × (is_some c ≡ false)
      × (is_some d ≡ false)
      × (is_some e ≡ false)
chain_none a b c d e h = ground arith

find_none-total :
    (q : String) (m : Manager)
    → find_service_from_path (some m) (some q) false ≡ none
    → total q m ≡ 0
unfolding find_service_from_path
find_none-total q m h =
    let (a, b, c, d, e) =
      chain_none (connman_manager_find_service_by_path m.wifi_services (some q))
        (connman_manager_find_service_by_path m.wired_services (some q))
        (connman_manager_find_service_by_path m.p2p_services (some q))
        (connman_manager_find_service_by_path m.bluetooth_services (some q))
        (connman_manager_find_service_by_path m.cellular_services (some q)) h in
    omega (
      arith,
      (find-count q m.wifi_services).1 a,
      (find-count q m.wired_services).1 b,
      (find-count q m.p2p_services).1 c,
      (find-count q m.bluetooth_services).1 d,
      (find-count q m.cellular_services).1 e,
    )

add_new_service-total :
    (env : Env) (q : String) (entry : ServiceEntry) (m : Manager) {o : Option Service}
    {m' : Manager}
    → total entry.path m ≡ 0
    → total q m ≤ 1
    → add_new_service env entry false m ≡ some (o, m')
    → (total q m ≤ total q m') × (total q m' ≤ 1)
unfolding add_new_service
add_new_service-total env q entry m z h e =
    let s = connman_service_new env.texts entry.path entry.properties in
    ground (
      arith,
      total-add_service_to_list q s m,
      new-path env.texts entry.path entry.properties,
      str_eq_iff entry.path q,
      ap (λ (p : String). total p m),
    )

-- One service of a message: no path is lost, and none gets a second service.
pub update_or_add_service-total :
    (env : Env) (q : String) (entry : ServiceEntry) (m : Manager) {o : Option Service}
    {m' : Manager}
    → total q m ≤ 1
    → update_or_add_service env entry false m ≡ some (o, m')
    → (total q m ≤ total q m') × (total q m' ≤ 1)
unfolding update_or_add_service
update_or_add_service-total env q entry m {o} {m'} h e =
    elim (Option-cases (find_service_from_path (some m) (some entry.path) false)) [
      | inl missing ↦
          add_new_service-total env q entry m {o = o} {m' = m'}
            (find_none-total entry.path m missing) h (ground arith)
      | inr (s, found) ↦
          ground (arith, total-update_service env q entry.path entry.properties false m)
    ]
