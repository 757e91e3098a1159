-- ===== src/Scan/Removal.antt =====
-- What the loops over the subscribers do to the array.
use mathlib.Core.List.{Perm, Permᴰ}
use mathlib.Core.List.Perm
use mathlib.Core.Logic.{∥∥₁_elim}
use webos_connman_adapter.Base.{
  ℕ, zero, suc, ◌≤◌, ◌<◌, ◌≡◌, refl, ap, inl, inr, Bool, true, false, not, List, [], ◌∷◌, String,
  str_eq, if◌then◌else◌, All, keep, length, Bool-cases, arith,
}
use webos_connman_adapter.Scan.State.{Subscriber}
use webos_connman_adapter.Scan.Interval.{
  last_of, all_but_last, remove_index_fast, remove_from, remove_subscribers, compute_scan_interval,
}
use webos_connman_adapter.Scan.Minimum.{HasInterval, compute_scan_interval-minimum}

-- The shape of `keep` on one element, and on two.
keep_one {ℓ} :
    {A : Type ℓ} (c : Bool) (b : A) {xs ys : List A}
    → Perm xs ys
    → Perm (if c then b ∷ xs else xs) (if c then b ∷ ys else ys)
keep_one true b r = Perm.cons b r
keep_one false b r = r

keep_two {ℓ} :
    {A : Type ℓ} (c d : Bool) (a b : A) (xs : List A)
    → Perm
        (if c then a ∷ (if d then b ∷ xs else xs) else (if d then b ∷ xs else xs))
        (if d then b ∷ (if c then a ∷ xs else xs) else (if c then a ∷ xs else xs))
keep_two true true a b xs = Perm.swap b a xs
keep_two true false a b xs = Perm.rfl
keep_two false true a b xs = Perm.rfl
keep_two false false a b xs = Perm.rfl

keep-Permᴰ {ℓ} :
    {A : Type ℓ} (p : A → Bool) {xs ys : List A} → Permᴰ xs ys → Perm (keep p xs) (keep p ys)
keep-Permᴰ p Permᴰ.nil = Perm.nil
keep-Permᴰ p (Permᴰ.cons {b = b} e r) = rw e (keep_one (p b) b (keep-Permᴰ p r))
keep-Permᴰ p (Permᴰ.swap {a' = a'} {b' = b'} {l = l} e f) =
    rw (e, f) (keep_two (p b') (p a') b' a' (keep p l))
keep-Permᴰ p (Permᴰ.trans q r) = Perm.trans (keep-Permᴰ p q) (keep-Permᴰ p r)

keep-perm {ℓ} :
    {A : Type ℓ} (p : A → Bool) {xs ys : List A} → Perm xs ys → Perm (keep p xs) (keep p ys)
keep-perm p r = ∥∥₁_elim r squash₁ (keep-Permᴰ p)

length-keep-le {ℓ} : {A : Type ℓ} (p : A → Bool) (xs : List A) → length (keep p xs) ≤ length xs
length-keep-le p [] = omega arith
length-keep-le p (x ∷ xs) = ground (arith, length-keep-le p xs)

length-all_but_last :
    (x : Subscriber) (xs : List Subscriber) → length (all_but_last x xs) ≡ length xs
length-all_but_last x [] = refl
length-all_but_last x (y ∷ ys) = ap suc (length-all_but_last y ys)

length-remove_index_fast : (ds : List Subscriber) → length (remove_index_fast ds) ≡ length ds
unfolding remove_index_fast
length-remove_index_fast [] = refl
length-remove_index_fast (y ∷ ys) = ap suc (length-all_but_last y ys)

last-perm :
    (x : Subscriber) (xs : List Subscriber) → Perm (last_of x xs ∷ all_but_last x xs) (x ∷ xs)
last-perm x [] = Perm.rfl
last-perm x (y ∷ ys) =
    Perm.trans (Perm.swap x (last_of y ys) (all_but_last y ys)) (Perm.cons x (last-perm y ys))

remove_index_fast-perm : (ds : List Subscriber) → Perm (remove_index_fast ds) ds
unfolding remove_index_fast
remove_index_fast-perm [] = Perm.nil
remove_index_fast-perm (y ∷ ys) = last-perm y ys

-- The test that an entry is not of the source.
abbrev pub other_source : String → Subscriber → Bool
other_source source d = not (str_eq d.subscriber source)

remove_from-perm :
    (n : ℕ) (source : String) (ds : List Subscriber)
    → length ds ≤ n
    → Perm (remove_from n source ds).0 (keep (other_source source) ds)
unfolding remove_from
remove_from-perm zero source [] h = Perm.nil
remove_from-perm zero source (d ∷ ds) h = elim h [ ]
remove_from-perm (suc n) source [] h = Perm.nil
remove_from-perm (suc n) source (d ∷ ds) h = elim (Bool-cases (str_eq d.subscriber source)) [
  | inl hit ↦ rw hit (
      Perm.trans
        (remove_from-perm n source (remove_index_fast ds)
          (omega (arith, length-remove_index_fast ds)))
        (keep-perm _ (remove_index_fast-perm ds)))
  | inr miss ↦ rw miss (Perm.cons d (remove_from-perm n source ds (omega arith)))
]

remove_from-found :
    (n : ℕ) (source : String) (ds : List Subscriber)
    → length ds ≤ n
    → ((remove_from n source ds).1 ≡ true → length (keep (other_source source) ds) < length ds)
      × ((remove_from n source ds).1 ≡ false → keep (other_source source) ds ≡ ds)
unfolding remove_from
remove_from-found zero source [] h = ground arith
remove_from-found zero source (d ∷ ds) h = elim h [ ]
remove_from-found (suc n) source [] h = ground arith
remove_from-found (suc n) source (d ∷ ds) h =
    ground (arith, remove_from-found n source ds, length-keep-le (other_source source) ds)

-- The loop of `wifi_scan_remove_interval` on the array, on fuel for its length: what is left is a
-- permutation of the entries of the other sources, and the flag tells whether that is fewer than
-- before. With the flag false the entries of the other sources are all there were.
pub remove_subscribers_lem :
    (source : String) (ds : List Subscriber)
    → Perm (remove_subscribers source ds).0 (keep (other_source source) ds)
      × ((remove_subscribers source ds).1 ≡ true
          → length (keep (other_source source) ds) < length ds)
      × ((remove_subscribers source ds).1 ≡ false → keep (other_source source) ds ≡ ds)
unfolding remove_subscribers
remove_subscribers_lem source ds =
    let (some_gone, none_gone) = remove_from-found (length ds) source ds (omega arith) in
    (remove_from-perm (length ds) source ds (omega arith), some_gone, none_gone)

last-HasInterval :
    (x : Subscriber) (xs : List Subscriber)
    → HasInterval x
    → All HasInterval xs
    → HasInterval (last_of x xs) × All HasInterval (all_but_last x xs)
last-HasInterval x [] h a = (h, tt)
last-HasInterval x (y ∷ ys) h a = let (l, r) = last-HasInterval y ys a.0 a.1 in (l, (h, r))

remove_from-HasInterval :
    (n : ℕ) (source : String) (ds : List Subscriber)
    → All HasInterval ds
    → All HasInterval (remove_from n source ds).0
unfolding remove_from remove_index_fast
remove_from-HasInterval zero source ds a = a
remove_from-HasInterval (suc n) source [] a = tt
remove_from-HasInterval (suc n) source (d ∷ []) a =
    ground (arith, remove_from-HasInterval n source [] tt)
remove_from-HasInterval (suc n) source (d ∷ e ∷ ds) a = ground (
  arith,
  remove_from-HasInterval n source (last_of e ds ∷ all_but_last e ds)
      (last-HasInterval e ds a.1.0 a.1.1),
  remove_from-HasInterval n source (e ∷ ds) a.1,
)

pub remove_subscribers-HasInterval :
    (source : String) (ds : List Subscriber)
    → All HasInterval ds
    → All HasInterval (remove_subscribers source ds).0
unfolding remove_subscribers
remove_subscribers-HasInterval source ds a = remove_from-HasInterval (length ds) source ds a

-- Something to remove means that the least interval was not 0.
pub remove_subscribers-pos :
    (source : String) (ds : List Subscriber)
    → All HasInterval ds
    → (remove_subscribers source ds).1 ≡ true
    → 0 < compute_scan_interval ds
unfolding remove_subscribers
remove_subscribers-pos source [] a h = absurd (ground arith)
remove_subscribers-pos source (d ∷ ds) a h = (compute_scan_interval-minimum d ds a).0

remove_from-unchanged :
    (n : ℕ) (source : String) (ds : List Subscriber)
    → (remove_from n source ds).1 ≡ false
    → (remove_from n source ds).0 ≡ ds
unfolding remove_from
remove_from-unchanged zero source ds h = refl
remove_from-unchanged (suc n) source [] h = refl
remove_from-unchanged (suc n) source (d ∷ ds) h = ground (arith, remove_from-unchanged n source ds)

-- With nothing found the array is as it was.
pub remove_subscribers-unchanged :
    (source : String) (ds : List Subscriber)
    → (remove_subscribers source ds).1 ≡ false
    → (remove_subscribers source ds).0 ≡ ds
unfolding remove_subscribers
remove_subscribers-unchanged source ds h = remove_from-unchanged (length ds) source ds h
