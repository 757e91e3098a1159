-- ===== src/Profile/Invariant.antt =====
-- The ids and the pointers of the profile list stay distinct.
use webos_connman_adapter.Base.{
  ℕ, ◌+◌, ◌%◌, ◌^◌, ◌<◌, ◌≡◌, refl, ◌≢◌, inl, inr, Bool, List, [], ◌∷◌, ◌++◌, Option, none, some,
  ◌==◌, Bytes, All, All-append, Bool-cases, arith,
}
use webos_connman_adapter.Platform.{Platform}
use webos_connman_adapter.Profile.State.{Profile, State, is_listed, unlink}
use webos_connman_adapter.Profile.Ops.{
  initial_state, new_profile, append_profile, create_new_profile, move_profile_to_head, is_head,
}
use webos_connman_adapter.Profile.Distinct.{Distinct, address_of, id_of, Listed, All-Listed}
use webos_connman_adapter.Setting.Store.{store_wifi_setting}

-- The id and the pointer of a profile are below the next ones.
abbrev pub IsBelow : ℕ → ℕ → Profile → Type 0
IsBelow next_id next_address q = (q.profile_id < next_id) × (q.address < next_address)

abbrev pub IsSound : ℕ → ℕ → List Profile → Type 0
IsSound next_id next_address qs =
    All (IsBelow next_id next_address) qs × Distinct id_of qs × Distinct address_of qs

abbrev pub Inv : {Prefs : Type 0} → State Prefs → Type 0
Inv s = IsSound s.gprofile_id s.next_address s.wifi_profile_list

All-weaken {ℓ κ} :
    {P : Profile → Type ℓ} {Q : Profile → Type κ} (h : (q : Profile) → P q → Q q)
    (qs : List Profile)
    → All P qs
    → All Q qs
All-weaken h [] a = tt
All-weaken h (q ∷ qs) a = (h q a.0, All-weaken h qs a.1)

Distinct-append :
    (key : Profile → ℕ) (q : Profile) (qs : List Profile)
    → Distinct key qs
    → All (λ r. key r < key q) qs
    → Distinct key (qs ++ q ∷ [])
Distinct-append key q [] d a = (tt, tt)
Distinct-append key q (r ∷ rs) d a = (
  All-append (λ x. key x ≢ key r) rs (q ∷ []) d.0 ((omega arith), tt),
  Distinct-append key q rs d.1 a.1,
)

All-unlink {ℓ} :
    (P : Profile → Type ℓ) (address : ℕ) (qs : List Profile) → All P qs → All P (unlink address qs)
All-unlink P address [] a = tt
All-unlink P address (q ∷ qs) a = ground (arith, All-unlink P address qs a.1)

pub Distinct-unlink :
    (key : Profile → ℕ) (address : ℕ) (qs : List Profile)
    → Distinct key qs
    → Distinct key (unlink address qs)
Distinct-unlink key address [] d = tt
Distinct-unlink key address (q ∷ qs) d =
    ground
      (arith, Distinct-unlink key address qs d.1, All-unlink (λ r. key r ≢ key q) address qs d.0)

-- What is left after unlinking a listed profile differs from it.
unlink-ne :
    (key : Profile → ℕ) (q : Profile) (qs : List Profile)
    → Listed q qs
    → Distinct key qs
    → Distinct address_of qs
    → All (λ r. key r ≢ key q) (unlink q.address qs)
unlink-ne key q [] l d a = absurd l
unlink-ne key q (r ∷ rs) (inl e) d a = rw (← e) (elim (Bool-cases (q.address == q.address)) [
  | inl hit ↦ rw hit (rw e d.0)
  | inr miss ↦ absurd (ground arith)
])
unlink-ne key q (r ∷ rs) (inr l) d a = ground (
  arith,
  unlink-ne key q rs l d.1 a.1,
  All-Listed (λ x. key x ≢ key r) q rs d.0 l,
  All-Listed (λ x. x.address ≢ r.address) q rs a.0 l,
)

module _ (p : Platform) where
  initial_state-Inv :
      (prefs : p.Prefs) (files : Bytes → Option Bytes) → Inv (initial_state p prefs files)
  initial_state-Inv prefs files = (tt, tt, tt)

  -- Storing changes the preferences alone.
  store-Inv : (s : State p.Prefs) → Inv s → Inv (store_wifi_setting p s).1
  unfolding store_wifi_setting
  store-Inv s v = ground arith

  append_profile-Inv :
      (q : Profile) (s : State p.Prefs)
      → Inv s
      → q.profile_id ≡ s.gprofile_id
      → q.address ≡ s.next_address
      → s.gprofile_id + 1 < 2 ^ 32
      → Inv (append_profile p q s)
  unfolding append_profile
  append_profile-Inv q s v i a h =
      let below =
        All-weaken {Q = IsBelow ((s.gprofile_id + 1) % 2 ^ 32) (s.next_address + 1)}
          (λ r b. omega arith) s.wifi_profile_list v.0 in
      (
        All-append (IsBelow ((s.gprofile_id + 1) % 2 ^ 32) (s.next_address + 1)) _ (q ∷ []) below
            ((omega arith, omega arith), tt),
        Distinct-append id_of q _ v.1
            (All-weaken {P = IsBelow s.gprofile_id s.next_address} (λ r b. omega arith) _ v.0),
        Distinct-append address_of q _ v.2
            (All-weaken {P = IsBelow s.gprofile_id s.next_address} (λ r b. omega arith) _ v.0),
      )

  -- As long as the next id does not wrap, `create_new_profile` keeps ids and pointers distinct and
  -- below the next ones.
  pub create_new_profile-Inv :
      (ssid : Option Bytes) (security : Option (List Bytes)) (hidden configured : Bool)
      (s : State p.Prefs)
      → Inv s
      → s.gprofile_id + 1 < 2 ^ 32
      → Inv (create_new_profile p ssid security hidden configured s).1
  unfolding create_new_profile
  create_new_profile-Inv none security hidden configured s v h = v
  create_new_profile-Inv (some ssid) security hidden configured s v h =
      store-Inv _
        (append_profile-Inv (new_profile p ssid security hidden configured s) s v refl refl h)

  unlink-Inv :
      (address : ℕ) (s : State p.Prefs)
      → Inv s
      → Inv (record s { wifi_profile_list = unlink address s.wifi_profile_list })
  unlink-Inv address s v = (
    All-unlink (IsBelow s.gprofile_id s.next_address) address s.wifi_profile_list v.0,
    Distinct-unlink id_of address s.wifi_profile_list v.1,
    Distinct-unlink address_of address s.wifi_profile_list v.2,
  )

  to_head-Inv :
      (q : Profile) (s : State p.Prefs)
      → Listed q s.wifi_profile_list
      → Inv s
      → Inv (record s { wifi_profile_list = q ∷ unlink q.address s.wifi_profile_list })
  to_head-Inv q s l v = (
    (All-Listed (IsBelow s.gprofile_id s.next_address) q _ v.0 l, (unlink-Inv q.address s v).0),
    (unlink-ne id_of q _ l v.1 v.2, (unlink-Inv q.address s v).1),
    (unlink-ne address_of q _ l v.2 v.2, (unlink-Inv q.address s v).2),
  )

  -- `move_profile_to_head` of a listed profile keeps ids and pointers distinct and below the next
  -- ones.
  pub move_profile_to_head-Inv :
      (q : Profile) (s : State p.Prefs)
      → Listed q s.wifi_profile_list
      → Inv s
      → Inv (move_profile_to_head p (some q) s)
  unfolding move_profile_to_head
  move_profile_to_head-Inv q s l v = elim (Bool-cases (is_head q.address s.wifi_profile_list)) [
    | inl at_head ↦ rw at_head v
    | inr behind ↦ elim (Bool-cases (is_listed q.address s.wifi_profile_list)) [
      | inl found ↦ rw (behind, found) (store-Inv _ (to_head-Inv q s l v))
      | inr missing ↦ rw (behind, missing) (store-Inv s v)
    ]
  ]
