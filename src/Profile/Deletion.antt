-- ===== src/Profile/Deletion.antt =====
-- What `delete_profile` and `delete_all_profiles_except_one` leave of the list.
use webos_connman_adapter.Base.{
  ℕ, ◌≡◌, refl, sym, ap, ◌∙◌, ◌≢◌, ◌↔◌, Bytes, bytes_eq, inl, inr, Bool, true, false, not, ◌&&◌,
  ◌||◌, List, [], ◌∷◌, Option, none, some, is_some, ◌==◌, if◌then◌else◌, All, keep, Bool-cases,
  arith,
}
use webos_connman_adapter.Platform.{Platform}
use webos_connman_adapter.Profile.State.{Profile, State, is_listed, unlink, security_0}
use webos_connman_adapter.Profile.Ops.{
  delete_profile, collect_others, delete_profiles, delete_all_profiles_except_one,
}
use webos_connman_adapter.Profile.Distinct.{Distinct, address_of, Listed, All-Listed}
use webos_connman_adapter.Profile.Invariant.{Distinct-unlink}
use webos_connman_adapter.Setting.Store.{
  store_wifi_setting, remove_network_config, build_config_path,
}

-- A configured profile has a list of security types.
abbrev pub HasSecurity : Profile → Type 0
HasSecurity q = q.configured ≡ true → is_some q.security ≡ true

-- Is it the config file of the profile, which only a configured profile has?
abbrev pub is_config_of : Platform → Profile → Bytes → Bool
is_config_of p q f = elim q.security [
  | none ↦ false
  | some ss ↦ q.configured && bytes_eq f (build_config_path p q.ssid (security_0 ss))
]

unlink_all : List Profile → List Profile → List Profile
unlink_all [] ps = ps
unlink_all (q ∷ qs) ps = unlink_all qs (unlink q.address ps)

module _ (p : Platform) where
  -- Deleting a profile reads through a NULL `security` exactly for a configured profile that has
  -- none, and otherwise takes its node, the first with its pointer, off the list.
  delete_profile_lem :
      (q : Profile) (s : State p.Prefs)
      → ((delete_profile p (some q) s ≡ none) ↔ ((q.configured ≡ true) × (q.security ≡ none)))
        × ((t : State p.Prefs)
            → delete_profile p (some q) s ≡ some t
            → t.wifi_profile_list ≡ unlink q.address s.wifi_profile_list)
  unfolding delete_profile remove_network_config store_wifi_setting
  delete_profile_lem q s = ((λ e. ground arith, λ e. ground arith), λ t e. ground arith)

  delete_profile-some :
      (q : Profile) (s : State p.Prefs)
      → HasSecurity q
      → (t : State p.Prefs) × (delete_profile p (some q) s ≡ some t)
  delete_profile-some q s h = go (delete_profile p (some q) s) refl
    where
      go :
          (o : Option (State p.Prefs))
          → delete_profile p (some q) s ≡ o
          → (t : State p.Prefs) × (delete_profile p (some q) s ≡ some t)
      go none e = absurd (ground (arith, (delete_profile_lem q s).0.0 e))
      go (some t) e = (t, e)

  delete_profiles-some :
      (qs : List Profile) (s : State p.Prefs)
      → All HasSecurity qs
      → (t : State p.Prefs) × (delete_profiles p qs s ≡ some t)
        × (t.wifi_profile_list ≡ unlink_all qs s.wifi_profile_list)
  unfolding delete_profiles unlink_all
  delete_profiles-some [] s a = (s, refl, refl)
  delete_profiles-some (q ∷ qs) s a =
      let (s', e) = delete_profile-some q s a.0 in
      let (t, f, l) = delete_profiles-some qs s' a.1 in
      (t, rw (e, delete_profiles) f, l ∙ ap (unlink_all qs) ((delete_profile_lem q s).1 s' e))

keep-All :
    (test : Profile → Bool) (ps : List Profile) → All (λ r. test r ≡ true) ps → keep test ps ≡ ps
keep-All test [] a = refl
keep-All test (q ∷ qs) a = ground (arith, keep-All test qs a.1)

keep_cong :
    (f g : Profile → Bool) (ps : List Profile)
    → ((r : Profile) → Listed r ps → f r ≡ g r)
    → keep f ps ≡ keep g ps
keep_cong f g [] h = refl
keep_cong f g (q ∷ qs) h = ground (arith, keep_cong f g qs (λ r l. h r (inr l)), h q (inl refl))

keep-keep :
    (f g : Profile → Bool) (ps : List Profile) → keep f (keep g ps) ≡ keep (λ r. g r && f r) ps
keep-keep f g [] = refl
keep-keep f g (q ∷ qs) = ground (arith, keep-keep f g qs)

other_addresses :
    (address : ℕ) (ps : List Profile)
    → All (λ r. r.address ≢ address) ps
    → All (λ r. not (r.address == address) ≡ true) ps
other_addresses address [] a = tt
other_addresses address (q ∷ qs) a = (ground (arith, a.0), other_addresses address qs a.1)

-- With distinct pointers a node is taken off by its pointer alone.
unlink-keep :
    (address : ℕ) (ps : List Profile)
    → Distinct address_of ps
    → unlink address ps ≡ keep (λ r. not (r.address == address)) ps
unlink-keep address [] d = refl
unlink-keep address (q ∷ qs) d = elim (Bool-cases (q.address == address)) [
  | inl hit ↦
      let e : q.address ≡ address = ground arith in
      rw hit (sym (keep-All _ qs (other_addresses address qs (rw e at d.0))))
  | inr miss ↦ rw miss (ap (λ r. q ∷ r) (unlink-keep address qs d.1))
]

unlink_all-keep :
    (qs ps : List Profile)
    → Distinct address_of ps
    → unlink_all qs ps ≡ keep (λ r. not (is_listed r.address qs)) ps
unfolding unlink_all
unlink_all-keep [] ps d = sym (keep-All _ ps (every ps))
  where
    every : (ps : List Profile) → All (λ r. not false ≡ true) ps
    every [] = tt
    every (q ∷ qs) = (refl, every qs)
unlink_all-keep (q ∷ qs) ps d =
    unlink_all-keep qs (unlink q.address ps) (Distinct-unlink address_of q.address ps d)
    ∙ ap (keep (λ r. not (is_listed r.address qs))) (unlink-keep q.address ps d)
    ∙ keep-keep _ _ ps
    ∙ keep_cong (λ r. not (r.address == q.address) && not (is_listed r.address qs))
        (λ r. not (is_listed r.address (q ∷ qs))) ps (λ r l. ground arith)

-- The pointer is that of a profile of the list with another id.
other_listed : ℕ → ℕ → List Profile → Bool
other_listed id address [] = false
other_listed id address (q ∷ qs) =
    let rest = other_listed id address qs in
    if not (q.profile_id == id) && q.address == address then true else rest

collect_others-listed :
    (id address : ℕ) (ps acc : List Profile)
    → is_listed address (collect_others id ps acc)
      ≡ (is_listed address acc || other_listed id address ps)
unfolding collect_others other_listed
collect_others-listed id address [] acc = ground arith
collect_others-listed id address (q ∷ qs) acc =
    ground
      (arith, collect_others-listed id address qs (if q.profile_id == id then acc else q ∷ acc))

other_listed_ne :
    (id address : ℕ) (ps : List Profile)
    → All (λ r. r.address ≢ address) ps
    → other_listed id address ps ≡ false
unfolding other_listed
other_listed_ne id address [] a = refl
other_listed_ne id address (q ∷ qs) a = ground (arith, other_listed_ne id address qs a.1, a.0)

other_listed-Listed :
    (id : ℕ) (r : Profile) (ps : List Profile)
    → Distinct address_of ps
    → Listed r ps
    → other_listed id r.address ps ≡ not (r.profile_id == id)
unfolding other_listed
other_listed-Listed id r [] d l = absurd l
other_listed-Listed id r (q ∷ qs) d (inl e) =
    let e' : q.address ≡ r.address = ground arith in
    ground (arith, e, other_listed_ne id r.address qs (rw e' at d.0))
other_listed-Listed id r (q ∷ qs) d (inr l) =
    ground
      (arith, other_listed-Listed id r qs d.1 l, All-Listed (λ x. x.address ≢ q.address) r qs d.0 l)

collect_others-HasSecurity :
    (id : ℕ) (ps acc : List Profile)
    → All HasSecurity ps
    → All HasSecurity acc
    → All HasSecurity (collect_others id ps acc)
unfolding collect_others
collect_others-HasSecurity id [] acc a b = b
collect_others-HasSecurity id (q ∷ qs) acc a b =
    collect_others-HasSecurity id qs (if q.profile_id == id then acc else q ∷ acc) a.1
      (ground arith)

-- With distinct pointers, and a list of security types in each configured profile,
-- `delete_all_profiles_except_one` succeeds and leaves exactly the profiles with the id, in order.
pub delete_all_profiles_except_one_lem :
    (p : Platform) (id : ℕ) (s : State p.Prefs)
    → Distinct address_of s.wifi_profile_list
    → All HasSecurity s.wifi_profile_list
    → (t : State p.Prefs) × (delete_all_profiles_except_one p id s ≡ some t)
      × (t.wifi_profile_list ≡ keep (λ r. r.profile_id == id) s.wifi_profile_list)
unfolding delete_all_profiles_except_one
delete_all_profiles_except_one_lem p id s d a =
    let ps = s.wifi_profile_list in
    let (t, e, l) =
      delete_profiles-some p (collect_others id ps []) s
        (collect_others-HasSecurity id ps [] a tt) in
    (
      t,
      e,
      l
          ∙ unlink_all-keep _ ps d
          ∙ keep_cong (λ r. not (is_listed r.address (collect_others id ps [])))
              (λ r. r.profile_id == id) ps
              (λ r m.
                ground (
                  arith,
                  collect_others-listed id r.address ps [],
                  other_listed-Listed id r ps d m,
                )),
    )
