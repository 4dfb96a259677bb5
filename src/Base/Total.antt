-- ===== src/Base/Total.antt =====
-- Sums over the numbers below a bound, and what a change of one summand does.
use Prim.Native.Nat.{ℕ, zero, suc, ◌+◌, ◌<◌}
use mathlib.Core.Path.{◌≡◌, refl, sym, ap₂}
use mathlib.Core.Logic.{inl, inr}
use mathlib.Core.Bool.{false}
use native.Mathlib.Omega.{arith}
use corograph.Base.Tests.{Bool-cases, ◌==◌}

abbrev pub total : (ℕ → ℕ) → ℕ → ℕ
total f zero = 0
total f (suc n) = f n + total f n

pub total_same : (f g : ℕ → ℕ) (n : ℕ) → ((u : ℕ) → u < n → g u ≡ f u) → total g n ≡ total f n
total_same f g zero h = refl
total_same f g (suc n) h =
    ap₂ (λ a b. a + b) (h n (omega arith)) (total_same f g n (λ u p. h u (omega arith)))

-- Only the summand of `v` changes.
pub total_changed :
    (f g : ℕ → ℕ) (n v : ℕ)
    → v < n
    → ((u : ℕ) → (u == v) ≡ false → g u ≡ f u)
    → total g n + f v ≡ total f n + g v
total_changed f g zero v p h = absurd (omega arith)
total_changed f g (suc n) v p h = elim (Bool-cases (n == v)) [
  | inl e ↦
      let same : n ≡ v = ground arith in
      let below = total_same f g n (λ u q. h u (ground arith)) in rw (sym same) (omega arith)
  | inr e ↦ let rest = total_changed f g n v (ground arith) h in let last = h n e in omega arith
]

pub total_zero : (n : ℕ) → total (λ v. 0) n ≡ 0
total_zero zero = refl
total_zero (suc n) = omega (arith, total_zero n)
