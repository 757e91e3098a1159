-- ===== src/Examples/Sort.antt =====
-- Insertion sort, as an instance of `g_slist_sort`.
use mathlib.Core.List.{Perm}
use mathlib.Core.List.Perm
use webos_connman_adapter.Base.{
  ◌≡◌, ◌⊎◌, inl, inr, true, List, [], ◌∷◌, if◌then◌else◌, All, Bool-cases, arith,
}
use webos_connman_adapter.Service.Info.{ℤ}
use webos_connman_adapter.Service.State.{Service}
use webos_connman_adapter.Wifi.Signal.{is_not_after}
use webos_connman_adapter.Wifi.Order.{IsSorted, IsSort}

abbrev insert_sorted : (Service → Service → ℤ) → Service → List Service → List Service
insert_sorted compare s [] = s ∷ []
insert_sorted compare s (t ∷ ts) =
    let rest = insert_sorted compare s ts in
    if is_not_after (compare s t) then s ∷ t ∷ ts else t ∷ rest

abbrev pub sort_services : (Service → Service → ℤ) → List Service → List Service
sort_services compare [] = []
sort_services compare (s ∷ ss) = insert_sorted compare s (sort_services compare ss)

insert_sorted-perm :
    (compare : Service → Service → ℤ) (s : Service) (ts : List Service)
    → Perm (insert_sorted compare s ts) (s ∷ ts)
insert_sorted-perm compare s [] = Perm.rfl
insert_sorted-perm compare s (t ∷ ts) = elim (Bool-cases (is_not_after (compare s t))) [
  | inl before ↦ rw before Perm.rfl
  | inr later ↦
      rw later (Perm.trans (Perm.cons t (insert_sorted-perm compare s ts)) (Perm.swap s t ts))
]

sort_services-perm :
    (compare : Service → Service → ℤ) (ss : List Service) → Perm (sort_services compare ss) ss
sort_services-perm compare [] = Perm.rfl
sort_services-perm compare (s ∷ ss) =
    Perm.trans (insert_sorted-perm compare s (sort_services compare ss))
      (Perm.cons s (sort_services-perm compare ss))

insert_sorted-All {ℓ} :
    (P : Service → Type ℓ) (compare : Service → Service → ℤ) (s : Service) (ts : List Service)
    → P s
    → All P ts
    → All P (insert_sorted compare s ts)
insert_sorted-All P compare s [] p a = (p, tt)
insert_sorted-All P compare s (t ∷ ts) p a = ground (arith, insert_sorted-All P compare s ts p a.1)

All-map {ℓ κ} :
    {P : Service → Type ℓ} {Q : Service → Type κ} (h : (t : Service) → P t → Q t)
    (ts : List Service)
    → All P ts
    → All Q ts
All-map h [] a = tt
All-map h (t ∷ ts) a = (h t a.0, All-map h ts a.1)

module _ (compare : Service → Service → ℤ)
    (total : (s t : Service)
      → (is_not_after (compare s t) ≡ true) ⊎ (is_not_after (compare t s) ≡ true))
    (transitive : (s t u : Service)
      → is_not_after (compare s t) ≡ true
      → is_not_after (compare t u) ≡ true
      → is_not_after (compare s u) ≡ true) where
  insert_sorted-IsSorted :
      (s : Service) (ts : List Service)
      → IsSorted compare ts
      → IsSorted compare (insert_sorted compare s ts)
  insert_sorted-IsSorted s [] a = (tt, tt)
  insert_sorted-IsSorted s (t ∷ ts) a = elim (Bool-cases (is_not_after (compare s t))) [
    | inl before ↦
        rw before ((before, All-map (λ u h. transitive s t u before h) ts a.0), (a.0, a.1))
    | inr later ↦
        let front : is_not_after (compare t s) ≡ true = ground (arith, total s t) in
        rw later (
          insert_sorted-All (λ u. is_not_after (compare t u) ≡ true) compare s ts front a.0,
          insert_sorted-IsSorted s ts a.1,
        )
  ]

  sort_services-IsSorted : (ss : List Service) → IsSorted compare (sort_services compare ss)
  sort_services-IsSorted [] = tt
  sort_services-IsSorted (s ∷ ss) =
      insert_sorted-IsSorted s (sort_services compare ss) (sort_services-IsSorted ss)

pub sort_services-IsSort : IsSort sort_services
sort_services-IsSort compare total transitive ss =
    (sort_services-perm compare ss, sort_services-IsSorted compare total transitive ss)
