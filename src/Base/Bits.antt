-- ===== src/Base/Bits.antt =====
-- Laws of the bitwise operations that the sources pack and unpack words with.
use Prim.Native.Nat.{
  ℕ, zero, suc, ◌+◌, ◌-◌, ◌*◌, ◌/◌, ◌%◌, ◌^◌, ◌≤◌, ◌<◌, min, max, bit_and, bit_or, digits,
  bit_and-bitwise, bit_or-bitwise,
}
use mathlib.Core.Path.{◌≡◌, refl, sym, ap, ◌∙◌}
use native.Mathlib.Nat.{
  two-pow-succ, div-add-mod, mod-lt, mod-eq_of_lt, mul-add-mod_self_left, div-div-eq-div-mul,
}
use native.Mathlib.Omega.{arith}

-- The native operations are recursions on a count of digits; any count that is enough gives the
-- same number.
module _ (rest : ℕ → ℕ) (digit : ℕ → ℕ → ℕ) where
  digits_stable :
      (x y few many : ℕ)
      → x ≤ few
      → few ≤ many
      → digits rest digit few x y ≡ digits rest digit many x y
  digits_stable zero y zero zero p q = refl
  digits_stable zero y zero (suc many) p q = refl
  digits_stable zero y (suc few) (suc many) p q = refl
  digits_stable zero y (suc few) zero p q = absurd (omega arith)
  digits_stable (suc x) y zero many p q = absurd (omega arith)
  digits_stable (suc x) y (suc few) zero p q = absurd (omega arith)
  digits_stable (suc x) y (suc few) (suc many) p q =
      ap (λ t. t * 2 + digit (suc x % 2) (y % 2))
        (digits_stable (suc x / 2) (y / 2) few many (omega arith) (omega arith))

  -- One digit of a number that is not zero.
  digits_cons :
      (x y : ℕ)
      → digits rest digit (suc x) (suc x) y
        ≡ digits rest digit (suc x / 2) (suc x / 2) (y / 2) * 2 + digit (suc x % 2) (y % 2)
  digits_cons x y =
      ap (λ t. t * 2 + digit (suc x % 2) (y % 2))
        (sym (digits_stable (suc x / 2) (y / 2) (suc x / 2) x (omega arith) (omega arith)))

pub bit_or_step : (x y : ℕ) → bit_or x y ≡ bit_or (x / 2) (y / 2) * 2 + max (x % 2) (y % 2)
bit_or_step zero y = omega (arith, bit_or-bitwise 0 y, bit_or-bitwise (0 / 2) (y / 2))
bit_or_step (suc x) y = omega (
  arith,
  digits_cons (λ t. t) max x y,
  bit_or-bitwise (suc x) y,
  bit_or-bitwise (suc x / 2) (y / 2),
)

pub bit_and_step : (x y : ℕ) → bit_and x y ≡ bit_and (x / 2) (y / 2) * 2 + min (x % 2) (y % 2)
bit_and_step zero y = omega (arith, bit_and-bitwise 0 y, bit_and-bitwise (0 / 2) (y / 2))
bit_and_step (suc x) y = omega (
  arith,
  digits_cons (λ t. zero) min x y,
  bit_and-bitwise (suc x) y,
  bit_and-bitwise (suc x / 2) (y / 2),
)

-- Nothing on the right.
right_zero : (bound x : ℕ) → x ≤ bound → (bit_or x 0 ≡ x) × (bit_and x 0 ≡ 0)
right_zero bound zero h = (refl, refl)
right_zero zero (suc x) h = absurd (omega arith)
right_zero (suc bound) (suc x) h =
    let half = right_zero bound (suc x / 2) (omega arith) in
    (omega (arith, bit_or_step (suc x) 0, half.0), omega (arith, bit_and_step (suc x) 0, half.1))

pub bit_or-zero : (x : ℕ) → bit_or x 0 ≡ x
bit_or-zero x = (right_zero x x (omega arith)).0

pub bit_and-zero : (x : ℕ) → bit_and x 0 ≡ 0
bit_and-zero x = (right_zero x x (omega arith)).1

pub pow-pos : (n : ℕ) → 0 < 2 ^ n
pow-pos zero = omega arith
pow-pos (suc n) = omega (arith, two-pow-succ n, pow-pos n)

-- Two words without a common digit are joined by addition.
pub bit_or_disjoint : (n a b : ℕ) → b < 2 ^ n → bit_or (a * 2 ^ n) b ≡ a * 2 ^ n + b
bit_or_disjoint zero a b h =
    let e : b ≡ 0 = omega arith in rw e (omega (arith, bit_or-zero (a * 2 ^ 0)))
bit_or_disjoint (suc n) a b h =
    let e : a * 2 ^ suc n ≡ 2 * (a * 2 ^ n) = omega (arith, ap (λ t. a * t) (two-pow-succ n)) in
    let half : 2 * (a * 2 ^ n) / 2 ≡ a * 2 ^ n = omega arith in
    let ih = bit_or_disjoint n a (b / 2) (omega (arith, two-pow-succ n)) in
    let step = rw half at (bit_or_step (2 * (a * 2 ^ n)) b) in rw e (omega (arith, step, ih))

-- A mask of `n` ones keeps the lowest `n` digits.
mod-double : (p a : ℕ) → 0 < p → a % (2 * p) ≡ 2 * (a / 2 % p) + a % 2
mod-double p a h =
    let q = a / 2 / p in
    let r = a / 2 % p in
    let split : p * q + r ≡ a / 2 = div-add-mod (a / 2) p in
    let small : r < p = mod-lt (a / 2) h in
    let whole : a ≡ 2 * p * q + (2 * r + a % 2) = omega (arith, split) in
    ap (λ t. t % (2 * p)) whole
    ∙ mul-add-mod_self_left (2 * p) q (2 * r + a % 2)
    ∙ mod-eq_of_lt (omega arith)

pub bit_and_mask : (n a : ℕ) → bit_and a (2 ^ n - 1) ≡ a % 2 ^ n
bit_and_mask zero a = omega (arith, bit_and-zero a)
bit_and_mask (suc n) a =
    let pos = pow-pos n in
    let two : 2 ^ suc n ≡ 2 * 2 ^ n = omega (arith, two-pow-succ n) in
    let half : (2 * 2 ^ n - 1) / 2 ≡ 2 ^ n - 1 = omega arith in
    let step = rw half at (bit_and_step a (2 * 2 ^ n - 1)) in
    rw two (omega (arith, step, bit_and_mask n (a / 2), mod-double (2 ^ n) a pos))

-- A mask whose lowest `n` digits are zero looks at the word shifted by `n`.
pub bit_and_shift : (n a m : ℕ) → bit_and a (m * 2 ^ n) ≡ bit_and (a / 2 ^ n) m * 2 ^ n
bit_and_shift zero a m =
    let e : m * 2 ^ 0 ≡ m = omega arith in
    let f : a / 2 ^ 0 ≡ a = omega arith in rw (e, f) (omega arith)
bit_and_shift (suc n) a m =
    let two : 2 ^ suc n ≡ 2 * 2 ^ n = omega (arith, two-pow-succ n) in
    let e : m * (2 * 2 ^ n) ≡ 2 * (m * 2 ^ n) = omega arith in
    let half : 2 * (m * 2 ^ n) / 2 ≡ m * 2 ^ n = omega arith in
    let quot : a / (2 * 2 ^ n) ≡ a / 2 / 2 ^ n = sym (div-div-eq-div-mul a 2 (2 ^ n)) in
    let step = rw half at (bit_and_step a (2 * (m * 2 ^ n))) in
    rw (two, e, quot) (omega (arith, step, bit_and_shift n (a / 2) m))
