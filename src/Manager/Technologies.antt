-- ===== src/Manager/Technologies.antt =====
-- The list of technologies under the signals "technology_added" and "technology_removed".
use webos_connman_adapter.Base.{
  ℕ, suc, ◌+◌, ◌≤◌, ◌<◌, ◌≡◌, inl, inr, Bool, true, false, List, [], ◌∷◌, ◌++◌, Option, String,
  str_eq, str_eq_iff, if◌then◌else◌, is_some, Option-cases, arith,
}
use webos_connman_adapter.Manager.State.{Manager}
use webos_connman_adapter.Technology.{
  Technology, TechnologyProperty, connman_technology_new, connman_technology_new-path,
}
use webos_connman_adapter.Manager.Lookup.{find_technology_by_path}
use webos_connman_adapter.Manager.Services.{
  technology_added_cb, technology_removed_cb, unlink_technology,
}

abbrev pub technologies_at : String → List Technology → ℕ
technologies_at q [] = 0
technologies_at q (t ∷ ts) =
    let rest = technologies_at q ts in if str_eq t.path q then suc rest else rest

abbrev pub HasDistinctTechnologies : Manager → Type 0
HasDistinctTechnologies m = (q : String) → technologies_at q m.technologies ≤ 1

at-append :
    (q : String) (ts : List Technology) (t : Technology)
    → technologies_at q (ts ++ t ∷ []) ≡ technologies_at q ts + (if str_eq t.path q then 1 else 0)
at-append q [] t = ground arith
at-append q (u ∷ us) t = ground (arith, at-append q us t)

at-unlink :
    (q path : String) (ts : List Technology)
    → technologies_at q ts ≤ 1
    → technologies_at q (unlink_technology path ts)
      ≡ (if str_eq path q then 0 else technologies_at q ts)
at-unlink q path [] h = ground arith
at-unlink q path (t ∷ ts) h =
    ground
      (arith, at-unlink q path ts, str_eq_iff t.path path, str_eq_iff t.path q, str_eq_iff path q)

find-at :
    (q : String) (ts : List Technology)
    → (is_some (find_technology_by_path ts q) ≡ false → technologies_at q ts ≡ 0)
      × (is_some (find_technology_by_path ts q) ≡ true → 0 < technologies_at q ts)
unfolding find_technology_by_path
find-at q [] = ground arith
find-at q (t ∷ ts) = ground (arith, find-at q ts)

-- A manager whose technologies have distinct paths keeps them distinct when one is added. It then
-- has exactly one of the path if it could make it, and as many of another path as before.
pub technology_added_cb_lem :
    (proxy_made : String → Bool) (fetch : Technology → Option (List TechnologyProperty))
    (path : String) (m : Manager)
    → HasDistinctTechnologies m
    → let after = technology_added_cb proxy_made fetch path m in
      HasDistinctTechnologies after
      × (is_some (connman_technology_new proxy_made fetch path) ≡ true
          → technologies_at path after.technologies ≡ 1)
      × ((q : String)
          → str_eq path q ≡ false
          → technologies_at q after.technologies ≡ technologies_at q m.technologies)
unfolding technology_added_cb
technology_added_cb_lem proxy_made fetch path m d =
    elim (Option-cases (connman_technology_new proxy_made fetch path)) [
      | inl failed ↦
          let same : (q : String)
              → technologies_at q (technology_added_cb proxy_made fetch path m).technologies
                ≡ technologies_at q m.technologies =
            λ q. rw (failed, technology_added_cb) (ground arith) in
          (λ q. ground (arith, same q, d q), λ e. absurd (ground arith), λ q ne. same q)
      | inr (t, made) ↦
          let named = connman_technology_new-path proxy_made fetch path t made in
          let added : (q : String)
              → technologies_at q (technology_added_cb proxy_made fetch path m).technologies
                ≡ technologies_at q m.technologies
                  + (if is_some (find_technology_by_path m.technologies path)
                      then 0
                      else if str_eq path q
                      then 1
                      else 0) =
            λ q.
              rw (made, technology_added_cb)
                (ground (arith, at-append q m.technologies t, named)) in
          (
            λ q. ground (arith, added q, d q, find-at path m.technologies, str_eq_iff path q),
            λ e.
                ground
                  (arith, added path, d path, find-at path m.technologies, str_eq_iff path path),
            λ q ne. ground (arith, added q),
          )
    ]

-- A manager whose technologies have distinct paths keeps them distinct when one is removed, has
-- none of that path then, and as many of another path as before.
pub technology_removed_cb_lem :
    (path : String) (m : Manager)
    → HasDistinctTechnologies m
    → let after = technology_removed_cb path m in
      HasDistinctTechnologies after
      × (technologies_at path after.technologies ≡ 0)
      × ((q : String)
          → str_eq path q ≡ false
          → technologies_at q after.technologies ≡ technologies_at q m.technologies)
unfolding technology_removed_cb
technology_removed_cb_lem path m d = (
  λ q. ground (arith, at-unlink q path m.technologies (d q), d q),
  ground (arith, at-unlink path path m.technologies (d path), str_eq_iff path path),
  λ q ne. ground (arith, at-unlink q path m.technologies (d q)),
)
