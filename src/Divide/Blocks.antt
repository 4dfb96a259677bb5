-- ===== src/Divide/Blocks.antt =====
-- The blocks of determine_block_division, of libcoro/src/GraphHelpers.cpp, and the weight that
-- each block stands for.
use native.Mathlib.Nat.{mul-div-le, lt-mul-div-succ}
use corograph.Divide.{Weighing, equal_blocks, sum_blocks, block_division, block_weight}
use corograph.Base.{
  ℕ, zero, suc, ◌+◌, ◌-◌, ◌*◌, ◌/◌, ◌^◌, ◌≤◌, ◌<◌, ◌≡◌, ◌⊎◌, inl, inr, List, [], ◌∷◌, u32, u64,
  sub64, arith, get_or, length,
}

-- The last blocks of the divisions ascend up to the number of blocks.
pub record Rising (total num_blocks : ℕ) (ends : List ℕ) : Type 0 where
  pub ascend : (i j : ℕ) → i ≤ j → j < total → get_or ends i 0 ≤ get_or ends j 0
  pub last : get_or ends (total - 1) 0 ≡ num_blocks
  pub some_block : 0 < num_blocks

-- The blocks that the scale factors ask for.
unfoldable pub factor_sum : List ℕ → ℕ
factor_sum [] = 0
factor_sum (s ∷ scale_factor) = s + factor_sum scale_factor

-- Scale factors that a caller may pass: none, or one for each division and not all zero, with a
-- sum that fits 32 bits.
abbrev pub Fitting : (total : ℕ) → List ℕ → Type 0
Fitting total scale_factor =
    (scale_factor ≡ [])
    ⊎ ((length scale_factor ≡ total)
        × (0 < factor_sum scale_factor)
        × (factor_sum scale_factor < 2 ^ 32))

get_or-equal_blocks : (left i j : ℕ) → j < left → get_or (equal_blocks left i) j 0 ≡ i + j + 1
unfolding equal_blocks
get_or-equal_blocks zero i j h = absurd (omega arith)
get_or-equal_blocks (suc left) i zero h = omega arith
get_or-equal_blocks (suc left) i (suc j) h =
    let r = get_or-equal_blocks left (suc i) j (omega arith) in omega arith

sum_blocks_total :
    (b : ℕ) (ss : List ℕ) → b + factor_sum ss < 2 ^ 32 → (sum_blocks b ss).0 ≡ b + factor_sum ss
unfolding sum_blocks factor_sum
sum_blocks_total b [] h = omega arith
sum_blocks_total b (s ∷ ss) h =
    let e : u32 (b + s) ≡ b + s = omega arith in
    rw e (let r = sum_blocks_total (b + s) ss (omega arith) in omega arith)

sum_blocks_low :
    (b : ℕ) (ss : List ℕ) (j : ℕ)
    → b + factor_sum ss < 2 ^ 32
    → j < length ss
    → b ≤ get_or (sum_blocks b ss).1 j 0
unfolding sum_blocks factor_sum
sum_blocks_low b [] j h p = absurd (omega arith)
sum_blocks_low b (s ∷ ss) zero h p = omega arith
sum_blocks_low b (s ∷ ss) (suc j) h p =
    let e : u32 (b + s) ≡ b + s = omega arith in
    rw e (let r = sum_blocks_low (b + s) ss j (omega arith) (omega arith) in omega arith)

sum_blocks_ascend :
    (b : ℕ) (ss : List ℕ) (i j : ℕ)
    → b + factor_sum ss < 2 ^ 32
    → i ≤ j
    → j < length ss
    → get_or (sum_blocks b ss).1 i 0 ≤ get_or (sum_blocks b ss).1 j 0
unfolding sum_blocks factor_sum
sum_blocks_ascend b [] i j h p q = absurd (omega arith)
sum_blocks_ascend b (s ∷ ss) zero zero h p q = omega arith
sum_blocks_ascend b (s ∷ ss) (suc i) zero h p q = absurd (omega arith)
sum_blocks_ascend b (s ∷ ss) zero (suc j) h p q =
    let e : u32 (b + s) ≡ b + s = omega arith in
    rw e (sum_blocks_low (b + s) ss j (omega arith) (omega arith))
sum_blocks_ascend b (s ∷ ss) (suc i) (suc j) h p q =
    let e : u32 (b + s) ≡ b + s = omega arith in
    rw e (sum_blocks_ascend (b + s) ss i j (omega arith) (omega arith) (omega arith))

sum_blocks_last :
    (b : ℕ) (ss : List ℕ) (j : ℕ)
    → b + factor_sum ss < 2 ^ 32
    → suc j ≡ length ss
    → get_or (sum_blocks b ss).1 j 0 ≡ b + factor_sum ss
unfolding sum_blocks factor_sum
sum_blocks_last b [] j h p = absurd (omega arith)
sum_blocks_last b (s ∷ []) zero h p = omega arith
sum_blocks_last b (s ∷ (t ∷ ss)) zero h p = absurd (omega arith)
sum_blocks_last b (s ∷ ss) (suc j) h p =
    let e : u32 (b + s) ≡ b + s = omega arith in
    rw e (let r = sum_blocks_last (b + s) ss j (omega arith) (omega arith) in omega arith)

equal_blocks-Rising : (total : ℕ) → 0 < total → Rising total total (equal_blocks total 0)
equal_blocks-Rising total h = record {
  ascend = λ i j p q.
      let a = get_or-equal_blocks total 0 i (omega arith) in
      let b = get_or-equal_blocks total 0 j q in omega arith;
  last = let a = get_or-equal_blocks total 0 (total - 1) (omega arith) in omega arith;
  some_block = h;
}

pub block_division-Rising :
    (total : ℕ) (scale_factor : List ℕ)
    → 0 < total
    → Fitting total scale_factor
    → Rising total (block_division total scale_factor).0 (block_division total scale_factor).1
unfolding block_division
block_division-Rising total [] h fitting = equal_blocks-Rising total h
block_division-Rising total (s ∷ ss) h (inl e) = absurd (ground arith)
block_division-Rising total (s ∷ ss) h (inr (m, p, r)) =
    let q : 0 + factor_sum (s ∷ ss) < 2 ^ 32 = omega arith in
    let t = sum_blocks_total 0 (s ∷ ss) q in
    let l = sum_blocks_last 0 (s ∷ ss) (total - 1) q (omega arith) in
    record {
      ascend = λ i j a b. sum_blocks_ascend 0 (s ∷ ss) i j q a (omega arith);
      last = omega arith;
      some_block = omega arith;
    }

-- `weight` is the weight of all, `block` that of a block of `num_blocks`.
pub record Whole (weight block num_blocks : ℕ) : Type 0 where
  pub covers : weight ≤ block * num_blocks
  pub fits : block * num_blocks < 2 ^ 64

ceil-Whole :
    (weight num_blocks : ℕ)
    → 0 < num_blocks
    → weight + num_blocks ≤ 2 ^ 64
    → Whole weight ((weight + num_blocks - 1) / num_blocks) num_blocks
ceil-Whole weight num_blocks h fits =
    let q = (weight + num_blocks - 1) / num_blocks in
    let low = mul-div-le (weight + num_blocks - 1) num_blocks in
    let high : weight + num_blocks - 1 < num_blocks * (q + 1) =
      lt-mul-div-succ (weight + num_blocks - 1) h in
    record { covers = grind arith; fits = grind arith }

pub block_weight-Whole :
    (w : Weighing) (n e num_blocks : ℕ)
    → 0 < num_blocks
    → n * w.node_weight + (e + 1) * w.edge_weight + num_blocks ≤ 2 ^ 64
    → Whole (n * w.node_weight + (e + 1) * w.edge_weight) (block_weight w n e num_blocks) num_blocks
unfolding block_weight
block_weight-Whole w n e num_blocks h fits =
    let weight = n * w.node_weight + (e + 1) * w.edge_weight in
    let exact : sub64 (u64 weight + num_blocks) 1 ≡ weight + num_blocks - 1 = omega arith in
    rw exact (ceil-Whole weight num_blocks h fits)
