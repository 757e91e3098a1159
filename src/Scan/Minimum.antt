-- ===== src/Scan/Minimum.antt =====
-- `compute_scan_interval` of src/wifi_scan.c computes the least interval.
use webos_connman_adapter.Base.{
  ℕ, ◌≤◌, ◌<◌, ◌≡◌, refl, ◌⊎◌, inl, ◌||◌, List, [], ◌∷◌, ◌++◌, ltb, ◌==◌, if◌then◌else◌, All, arith,
}
use webos_connman_adapter.Scan.State.{Subscriber}
use webos_connman_adapter.Scan.Interval.{compute_from, compute_scan_interval}

abbrev pub HasInterval : Subscriber → Type 0
HasInterval d = 0 < d.interval

-- Some subscriber has the interval.
abbrev pub Attains : ℕ → List Subscriber → Type 0
Attains m [] = ⊥
Attains m (d ∷ ds) = (d.interval ≡ m) ⊎ Attains m ds

compute_from-minimum :
    (m : ℕ) (ds : List Subscriber)
    → 0 < m
    → All HasInterval ds
    → (0 < compute_from m ds)
      × (compute_from m ds ≤ m)
      × All (λ d. compute_from m ds ≤ d.interval) ds
      × ((compute_from m ds ≡ m) ⊎ Attains (compute_from m ds) ds)
unfolding compute_from
compute_from-minimum m [] h a = (h, omega arith, tt, inl refl)
compute_from-minimum m (d ∷ ds) h a =
    ground (arith, compute_from-minimum m ds h a.1, compute_from-minimum d.interval ds a.0 a.1)

-- Of one subscriber and any others, all with an interval above 0, `compute_scan_interval` gives an
-- interval above 0 that one of them has and that no one of them is below.
pub compute_scan_interval-minimum :
    (d : Subscriber) (ds : List Subscriber)
    → All HasInterval (d ∷ ds)
    → (0 < compute_scan_interval (d ∷ ds))
      × All (λ e. compute_scan_interval (d ∷ ds) ≤ e.interval) (d ∷ ds)
      × Attains (compute_scan_interval (d ∷ ds)) (d ∷ ds)
unfolding compute_scan_interval compute_from
compute_scan_interval-minimum d ds a = ground (arith, compute_from-minimum d.interval ds a.0 a.1)

compute_from-append :
    (m : ℕ) (ds : List Subscriber) (e : Subscriber)
    → compute_from m (ds ++ e ∷ []) ≡ (
        if compute_from m ds == 0 || ltb e.interval (compute_from m ds)
        then e.interval
        else compute_from m ds)
unfolding compute_from
compute_from-append m [] e = refl
compute_from-append m (d ∷ ds) e =
    compute_from-append (if m == 0 || ltb d.interval m then d.interval else m) ds e

-- The result for a list with one more subscriber at its end.
pub compute_scan_interval-append :
    (ds : List Subscriber) (e : Subscriber)
    → compute_scan_interval (ds ++ e ∷ []) ≡ (
        if compute_scan_interval ds == 0 || ltb e.interval (compute_scan_interval ds)
        then e.interval
        else compute_scan_interval ds)
unfolding compute_scan_interval
compute_scan_interval-append ds e = compute_from-append 0 ds e
