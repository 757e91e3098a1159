-- ===== src/Base/Decimal.antt =====
-- `printf` of an unsigned number.
use Prim.Native.Nat.{ℕ, zero, suc, ◌+◌, ◌/◌, ◌%◌}
use mathlib.Core.List.{List, [], ◌∷◌}
use webos_connman_adapter.Base.Tests.{◌==◌, if◌then◌else◌}

-- The digits in front of `out`; `k` is the fuel.
abbrev pub digits_of : ℕ → ℕ → List ℕ → List ℕ
digits_of zero n out = out
digits_of (suc k) n out =
    let digit = 48 + n % 10 in
    let rest = digits_of k (n / 10) (digit ∷ out) in if n / 10 == 0 then digit ∷ out else rest

-- "%d" of a number below 2^32, which has ten digits at most.
abbrev pub decimal : ℕ → List ℕ
decimal n = digits_of 10 n []
