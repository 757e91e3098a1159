-- ===== src/Manager/Signals.antt =====
-- The lists of services under the signal "services_changed".
use webos_connman_adapter.Base.{
  >>=-eq-some, ◌≤◌, ◌≡◌, refl, Bool, true, false, List, [], ◌∷◌, Option, none, some, String,
  if◌then◌else◌, arith,
}
use webos_connman_adapter.Service.State.{Service}
use webos_connman_adapter.Manager.State.{Manager, ServicesChanged, none_changed, Env, ServiceEntry}
use webos_connman_adapter.Manager.Services.{
  update_or_add_service, mark_type, update_services_from, connman_manager_update_services,
  remove_services_from_list, connman_manager_remove_old_services, services_changed_cb,
}
use webos_connman_adapter.Manager.Counts.{total, update_or_add_service-total}
use webos_connman_adapter.Manager.Removal.{is_removed, count-remove_services_from_list}

update_services_from-total :
    (env : Env) (q : String) (es : List ServiceEntry) (c : Bool) (f : ServicesChanged) (m : Manager)
    {c' : Bool} {f' : ServicesChanged} {m' : Manager}
    → total q m ≤ 1
    → update_services_from env es false (c, f, m) ≡ some (c', f', m')
    → (total q m ≤ total q m') × (total q m' ≤ 1)
unfolding update_services_from
update_services_from-total env q [] c f m h e = ground arith
update_services_from-total env q (x ∷ es) c f m {c'} {f'} {m'} h e =
    go (update_or_add_service env x false m) refl
      (λ d g n k r. update_services_from-total env q es d g n k r)
  where
    go :
        (o : Option (Option Service × Manager))
        → update_or_add_service env x false m ≡ o
        → ((d : Bool) (g : ServicesChanged) (n : Manager)
            → total q n ≤ 1
            → update_services_from env es false (d, g, n) ≡ some (c', f', m')
            → (total q n ≤ total q m') × (total q m' ≤ 1))
        → (total q m ≤ total q m') × (total q m' ≤ 1)
    go none u ih = absurd (ground (arith, u))
    go (some (none, n)) u ih =
        let step = update_or_add_service-total env q x m h u in
        let rest = ih c f n step.1 (rw (u, update_services_from) at e) in
        (omega (arith, step, rest), rest.1)
    go (some (some s, n)) u ih =
        let step = update_or_add_service-total env q x m h u in
        let rest = ih true (mark_type s.type f) n step.1 (rw (u, update_services_from) at e) in
        (omega (arith, step, rest), rest.1)

remove_old_services-total :
    (q : String) (paths : List String) (f : ServicesChanged) (m : Manager) {g : Bool}
    {f' : ServicesChanged} {m' : Manager}
    → total q m ≤ 1
    → connman_manager_remove_old_services (some paths) f m ≡ some (g, f', m')
    → total q m' ≡ (if is_removed q paths then 0 else total q m)
unfolding connman_manager_remove_old_services
remove_old_services-total q paths f m h e =
    let (a, ea, fa) = >>=-eq-some (remove_services_from_list m.wifi_services paths) _ e in
    let (b, eb, fb) = >>=-eq-some (remove_services_from_list m.wired_services paths) _ fa in
    let (c, ec, fc) = >>=-eq-some (remove_services_from_list m.p2p_services paths) _ fb in
    let (d, ed, fd) = >>=-eq-some (remove_services_from_list m.cellular_services paths) _ fc in
    let (k, ek, fk) = >>=-eq-some (remove_services_from_list m.bluetooth_services paths) _ fd in
    let wa = count-remove_services_from_list q m.wifi_services paths ea (omega arith) in
    let wb = count-remove_services_from_list q m.wired_services paths eb (omega arith) in
    let wc = count-remove_services_from_list q m.p2p_services paths ec (omega arith) in
    let wd = count-remove_services_from_list q m.cellular_services paths ed (omega arith) in
    let wk = count-remove_services_from_list q m.bluetooth_services paths ek (omega arith) in
    ground (arith, wa, wb, wc, wd, wk, fk)

-- No two of the services that are there have the same path.
abbrev pub HasDistinctPaths : Manager → Type 0
HasDistinctPaths m = (q : String) → total q m ≤ 1

-- A manager with distinct paths keeps them distinct under the signal "services_changed", where
-- nothing is read through NULL or freed twice on the way. Of a path that is to be removed it then
-- has no service, and of any other path it has one if it had one before.
pub services_changed_cb-total :
    (env : Env) (added : List ServiceEntry) (removed : List String) (m : Manager) {m' : Manager}
    → HasDistinctPaths m
    → services_changed_cb env (some added) (some removed) m ≡ some m'
    → HasDistinctPaths m'
      × ((q : String) → is_removed q removed ≡ true → total q m' ≡ 0)
      × ((q : String) → is_removed q removed ≡ false → total q m ≤ total q m')
unfolding services_changed_cb connman_manager_update_services
services_changed_cb-total env added removed m {m'} d e =
    let ((considered, flags, m1), e1, f1) =
      >>=-eq-some (update_services_from env added false (false, none_changed, m)) _ e in
    let ((gone, flags', m2), e2, f2) =
      >>=-eq-some (connman_manager_remove_old_services (some removed) flags m1) _ f1 in
    let at : (q : String)
        → total q m' ≡ (if is_removed q removed then 0 else total q m1)
          × (total q m ≤ total q m1)
          × (total q m1 ≤ 1) =
      λ q.
        let (up, one) = update_services_from-total env q added false none_changed m (d q) e1 in
        let off = remove_old_services-total q removed flags m1 one e2 in
        (ground (arith, off, f2), up, one) in
    (λ q. ground (arith, at q), λ q r. ground (arith, at q), λ q r. ground (arith, at q))
