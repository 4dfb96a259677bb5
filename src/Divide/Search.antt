-- ===== src/Divide/Search.antt =====
-- The binary search of libcoro/include/galois/graphs/GraphHelpers.h over the weights of the nodes.
use corograph.Divide.{Weighing, weight_at, find_index, find_index_prefix_sum}
use corograph.Base.{
  ℕ, zero, suc, ◌+◌, ◌-◌, ◌/◌, ◌≤◌, ◌<◌, ◌≡◌, inl, inr, ltb, arith, Bool-cases, ltb→lt, ltb→le,
}

-- `r` cuts the first `n` nodes into those lighter than the target and the others.
pub record Cut (w : Weighing) (n target r : ℕ) : Type 0 where
  pub inside : r ≤ n
  pub below : (i : ℕ) → i < r → weight_at w i < target
  pub above : (i : ℕ) → r ≤ i → i < n → target ≤ weight_at w i

-- A larger target is cut no earlier.
pub Cut-mono : {w : Weighing} {n t u r s : ℕ} → t ≤ u → Cut w n t r → Cut w n u s → r ≤ s
Cut-mono {w} {n} {t} {u} {r} {s} h p q = ground (arith, p.inside, q.inside, p.below s, q.above s)

pub Cut-unique : {w : Weighing} {n t r s : ℕ} → Cut w n t r → Cut w n t s → r ≡ s
Cut-unique {w} {n} {t} {r} {s} p q =
    let h : t ≤ t = omega arith in omega (arith, Cut-mono h p q, Cut-mono h q p)

pub reached : {w : Weighing} {n t r : ℕ} → Cut w n t r → (i : ℕ) → t ≤ weight_at w i → r ≤ i
reached c i h = ground (arith, c.below i)

pub not_reached :
    {w : Weighing} {n t r : ℕ} → Cut w n t r → (i : ℕ) → i < n → weight_at w i < t → i < r
not_reached c i h p = ground (arith, c.above i)

module _ (w : Weighing) (n : ℕ) where
  abbrev pub Ascends : Type 0
  Ascends = (i j : ℕ) → i ≤ j → j < n → weight_at w i ≤ weight_at w j

  module _ (t : ℕ) (ascends : Ascends) where
    find_index-Cut :
        (k lb ub : ℕ)
        → ub ≤ lb + k
        → lb ≤ ub
        → ub ≤ n
        → ((i : ℕ) → i < lb → weight_at w i < t)
        → ((i : ℕ) → ub ≤ i → i < n → t ≤ weight_at w i)
        → Cut w n t (find_index w t k lb ub)
    unfolding find_index
    find_index-Cut zero lb ub few ordered fits below above = record {
      inside = omega arith;
      below = below;
      above = λ i p q. above i (omega arith) q;
    }
    find_index-Cut (suc k) lb ub few ordered fits below above =
        let mid = lb + (ub - lb) / 2 in
        elim (Bool-cases (ltb lb ub)) [
          | inr e ↦ rw e (
              let h = ltb→le lb ub e in
              record {
                inside = omega arith;
                below = below;
                above = λ i p q. above i (omega arith) q;
              })
          | inl e ↦ rw e (
              let h = ltb→lt lb ub e in
              elim (Bool-cases (ltb (weight_at w mid) t)) [
                | inl c ↦ rw c (
                    let l = ltb→lt (weight_at w mid) t c in
                    find_index-Cut k (mid + 1) ub (omega arith) (omega arith) fits
                      (λ i p. let m = ascends i mid in omega arith) above)
                | inr c ↦ rw c (
                    let l = ltb→le (weight_at w mid) t c in
                    find_index-Cut k lb mid (omega arith) (omega arith) (omega arith) below
                      (λ i p q. let m = ascends mid i p q in omega arith))
              ])
        ]

    -- The search from a node that is not behind the cut finds it.
    pub find_index_prefix_sum-Cut :
        (lb : ℕ)
        → lb ≤ n
        → ((i : ℕ) → i < lb → weight_at w i < t)
        → Cut w n t (find_index_prefix_sum w t lb n)
    unfolding find_index_prefix_sum
    find_index_prefix_sum-Cut lb h below =
        find_index-Cut (n - lb) lb n (omega arith) h (omega arith) below
          (λ i p q. absurd (omega arith))
