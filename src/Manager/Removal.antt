-- ===== src/Manager/Removal.antt =====
-- What `remove_services_from_list` and `connman_manager_remove_old_services` do to the counts.
use webos_connman_adapter.Base.{
  ◌+◌, ◌≤◌, ◌<◌, ◌≡◌, ap, inl, inr, Bool, true, false, List, [], ◌∷◌, some, String, str_eq,
  str_eq_iff, if◌then◌else◌, is_some, Option-cases, arith,
}
use webos_connman_adapter.Service.State.{Service}
use webos_connman_adapter.Manager.Lookup.{connman_manager_find_service_by_path}
use webos_connman_adapter.Manager.Services.{
  is_in, unlink_path, collect_removed, remove_collected, remove_services_from_list,
}
use webos_connman_adapter.Manager.Counts.{count, find-count, find-path}

-- The path is among those to remove.
abbrev pub is_removed : String → List String → Bool
is_removed q [] = false
is_removed q (p ∷ ps) = let rest = is_removed q ps in if str_eq p q then true else rest

count-unlink_path :
    (q path : String) (ss : List Service)
    → is_in path ss ≡ true
    → count q (unlink_path path ss) + (if str_eq path q then 1 else 0) ≡ count q ss
unfolding connman_manager_find_service_by_path
count-unlink_path q path [] h = cc
count-unlink_path q path (s ∷ ss) h = ground (
  arith,
  count-unlink_path q path ss,
  str_eq_iff s.path path,
  str_eq_iff s.path q,
  str_eq_iff path q,
)

-- What is collected and what is left add up to what was there.
count-remove_collected :
    (q : String) (rs ss : List Service) {ss' : List Service}
    → remove_collected rs ss ≡ some ss'
    → count q ss' + count q rs ≡ count q ss
unfolding remove_collected
count-remove_collected q [] ss e = ground arith
count-remove_collected q (r ∷ rs) ss {ss'} e = ground (
  arith,
  count-unlink_path q r.path ss,
  count-remove_collected q rs (unlink_path r.path ss) {ss' = ss'},
)

count-collect_removed :
    (q : String) (ss : List Service) (paths : List String)
    → ((is_removed q paths ≡ false) → count q (collect_removed ss paths) ≡ 0)
      × ((is_removed q paths ≡ true) → 0 < count q ss → 0 < count q (collect_removed ss paths))
unfolding collect_removed
count-collect_removed q ss [] = ground arith
count-collect_removed q ss (p ∷ ps) =
    elim (Option-cases (connman_manager_find_service_by_path ss (some p))) [
      | inl missing ↦
          rw (missing, collect_removed)
            (ground (
              arith,
              count-collect_removed q ss ps,
              find-count p ss,
              str_eq_iff p q,
              ap is_some missing,
              ap (λ (x : String). count x ss),
            ))
      | inr (s, found) ↦
          rw (found, collect_removed)
            (ground (
              arith,
              count-collect_removed q ss ps,
              find-path p ss found,
              str_eq_iff p q,
              str_eq_iff s.path q,
            ))
    ]

-- Where a list has at most one service of a path, the removal leaves none if the path is to be
-- removed, and as many as before if not.
pub count-remove_services_from_list :
    (q : String) (ss : List Service) (paths : List String) {gone : Bool} {ss' : List Service}
    → remove_services_from_list ss paths ≡ some (gone, ss')
    → count q ss ≤ 1
    → count q ss' ≡ (if is_removed q paths then 0 else count q ss)
unfolding remove_services_from_list
count-remove_services_from_list q ss paths {gone} {ss'} e h = ground (
  arith,
  count-remove_collected q (collect_removed ss paths) ss {ss' = ss'},
  count-collect_removed q ss paths,
)
