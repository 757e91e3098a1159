-- ===== src/Profile/Distinct.antt =====
-- Lists of profiles with distinct pointers or ids, and the walk along such a list.
use mathlib.Core.List.{append_assoc}
use webos_connman_adapter.Base.{
  ℕ, ◌≡◌, refl, sym, ap, ◌≢◌, ◌⊎◌, inl, inr, List, [], ◌∷◌, ◌++◌, length, All, arith, subst,
}
use webos_connman_adapter.Profile.State.{
  Profile, after, first, get_next_profile, profiles_from, profiles_in_order,
}

-- No two profiles agree in the number.
abbrev pub Distinct : (Profile → ℕ) → List Profile → Type 0
Distinct key [] = Unit
Distinct key (q ∷ qs) = All (λ r. key r ≢ key q) qs × Distinct key qs

abbrev pub address_of : Profile → ℕ
address_of q = q.address

abbrev pub id_of : Profile → ℕ
id_of q = q.profile_id

abbrev pub Listed : Profile → List Profile → Type 0
Listed q [] = ⊥
Listed q (r ∷ rs) = (q ≡ r) ⊎ Listed q rs

-- What holds of all holds of a listed one.
pub All-Listed {ℓ} :
    (P : Profile → Type ℓ) (q : Profile) (qs : List Profile) → All P qs → Listed q qs → P q
All-Listed P q (r ∷ rs) a (inl e) = subst P (sym e) a.0
All-Listed P q (r ∷ rs) a (inr l) = All-Listed P q rs a.1 l
All-Listed P q [] a l = absurd l

after-append :
    (q : Profile) (before qs : List Profile)
    → Distinct address_of (before ++ q ∷ qs)
    → after q.address (before ++ q ∷ qs) ≡ qs
after-append q [] qs d = ground arith
after-append q (r ∷ rs) qs d = ground (arith, after-append q rs qs d.1, other)
  where
    last :
        (rs : List Profile)
        → All (λ x. x.address ≢ r.address) (rs ++ q ∷ qs)
        → q.address ≢ r.address
    last [] a = a.0
    last (x ∷ xs) a = last xs a.1

    other : q.address ≢ r.address
    other = last rs d.0

profiles_from-append :
    (before qs : List Profile)
    → Distinct address_of (before ++ qs)
    → profiles_from (length qs) (first qs) (before ++ qs) ≡ qs
unfolding profiles_from
profiles_from-append before [] d = refl
profiles_from-append before (q ∷ qs) d = rw (after-append q before qs d) (
    ap (λ r. q ∷ r)
      (rw (← (append_assoc before (q ∷ []) qs)) (
        profiles_from-append (before ++ q ∷ []) qs
          (subst (Distinct address_of) (sym (append_assoc before (q ∷ []) qs)) d))))

-- With distinct pointers, asking for the next profile again and again visits every profile of the
-- list once, in order, and ends.
pub profiles_in_order_lem : (ps : List Profile) → Distinct address_of ps → profiles_in_order ps ≡ ps
unfolding profiles_in_order get_next_profile
profiles_in_order_lem ps d = profiles_from-append [] ps d
