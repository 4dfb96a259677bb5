-- ===== src/Base/Maps.antt =====
-- Maps from numbers, written at one place.
use Prim.Native.Nat.{ℕ}
use mathlib.Core.Path.{◌≡◌, refl, ap}
use mathlib.Core.Logic.{◌≢◌, inl, inr}
use mathlib.Core.Bool.{Bool, true, false, ◌||◌}
use native.Mathlib.Omega.{arith}
use corograph.Base.Tests.{Bool-cases, ◌==◌, if◌then◌else◌}

module _ {ℓ} {A : Type ℓ} where
  abbrev pub update : (ℕ → A) → ℕ → A → ℕ → A
  update f a v x = if x == a then v else f x

  pub update_same : (f : ℕ → A) (a : ℕ) (v : A) → update f a v a ≡ v
  update_same f a v = let same : (a == a) ≡ true = ground arith in rw same refl

  pub update_other : (f : ℕ → A) (a : ℕ) (v : A) (x : ℕ) → x ≢ a → update f a v x ≡ f x
  update_other f a v x ne = let other : (x == a) ≡ false = ground arith in rw other refl

  pub update-ap :
      {B : Type 0} (g : A → B) (f : ℕ → A) (a : ℕ) (v : A) (x : ℕ)
      → g (update f a v x) ≡ (if x == a then g v else g (f x))
  update-ap g f a v x = elim (Bool-cases (x == a)) [
    | inl here ↦ rw here refl
    | inr other ↦ rw other refl
  ]

-- A test for the place itself changes nothing.
pub update_id {ℓ} : {A : Type ℓ} (f : ℕ → A) (a x : ℕ) → (if x == a then f a else f x) ≡ f x
update_id f a x = elim (Bool-cases (x == a)) [
  | inl here ↦ rw here (ap f (ground arith))
  | inr other ↦ rw other refl
]

pub or_false : (a b : Bool) → (a || b) ≡ false → (a ≡ false) × (b ≡ false)
or_false false b e = (refl, e)
or_false true b e = absurd (ground arith)
