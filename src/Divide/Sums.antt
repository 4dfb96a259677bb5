-- ===== src/Divide/Sums.antt =====
-- The weights that the search of libcoro/include/galois/graphs/GraphHelpers.h reads, when the
-- prefix sums ascend and the weight of all nodes and edges fits 64 bits.
use native.Mathlib.Nat.{mul-le-mul_right, mod-eq_of_lt}
use corograph.Divide.{Weighing, sum_end, sum_before, weight_at}
use corograph.Divide.Search.{Ascends}
use corograph.Base.{
  ℕ, ◌+◌, ◌-◌, ◌*◌, ◌^◌, ◌≤◌, ◌<◌, ◌≡◌, inl, inr, true, u64, sub64, ◌==◌, arith, Bool-cases,
}

-- What a caller provides: prefix sums that ascend, edge counts relative to the first node, and
-- numbers that fit 64 bits.
pub record Sums (w : Weighing) (n num_edges : ℕ) : Type 0 where
  pub some_node : 0 < n
  pub some_weight : 0 < w.node_weight + w.edge_weight
  pub indexed : n + w.node_offset < 2 ^ 64
  pub ascending : (i j : ℕ) → i ≤ j → j < n + w.node_offset → w.prefix i ≤ w.prefix j
  pub starts : 0 < w.node_offset → w.edge_offset ≤ w.prefix (w.node_offset - 1)
  pub starts_at_zero : w.node_offset ≡ 0 → w.edge_offset ≡ 0
  pub ends : w.prefix (n + w.node_offset - 1) ≤ w.edge_offset + num_edges
  pub counted : w.edge_offset + num_edges < 2 ^ 64
  pub weighed : n * w.node_weight + (num_edges + 1) * w.edge_weight < 2 ^ 64

module _ {w : Weighing} {n e : ℕ} (sums : Sums w n e) where
  -- The number of edges before a node, without the words.
  abbrev edges_to : ℕ → ℕ
  edges_to i = w.prefix (i + w.node_offset - 1) - w.edge_offset

  from_start :
      (i : ℕ) → 0 < i + w.node_offset → i ≤ n → w.edge_offset ≤ w.prefix (i + w.node_offset - 1)
  from_start i h p = ground (
    arith,
    sums.starts,
    sums.starts_at_zero,
    sums.ascending (w.node_offset - 1) (i + w.node_offset - 1),
  )

  to_end : (i : ℕ) → i ≤ n → w.prefix (i + w.node_offset - 1) ≤ w.edge_offset + e
  to_end i p =
      ground (arith, sums.ends, sums.ascending (i + w.node_offset - 1) (n + w.node_offset - 1))

  sum_end_lem : (i : ℕ) → 0 < i + w.node_offset → i ≤ n → sum_end w i ≡ edges_to i
  unfolding sum_end
  sum_end_lem i h p =
      let a = sums.indexed in
      let index : u64 (sub64 i 1 + w.node_offset) ≡ i + w.node_offset - 1 = omega arith in
      rw index
        (let b = from_start i h p in let c = to_end i p in let d = sums.counted in omega arith)

  sum_before_zero : (i : ℕ) → (u64 (i + w.node_offset) == 0) ≡ true → (k : ℕ) → sum_before w i ≤ k
  unfolding sum_before
  sum_before_zero i z k = rw z (omega arith)

  sum_before_le : (i : ℕ) → i ≤ n → sum_before w i ≤ e
  unfolding sum_before
  sum_before_le i p =
      let a = sums.indexed in
      let c = to_end i p in
      elim (Bool-cases (u64 (i + w.node_offset) == 0)) [
        | inl z ↦ rw z (omega arith)
        | inr z ↦
            rw z
              (let h : 0 < i + w.node_offset = ground arith in rw (sum_end_lem i h p) (omega arith))
      ]

  sum_before-sum_end : (i : ℕ) → 0 < i + w.node_offset → i ≤ n → sum_before w i ≡ sum_end w i
  unfolding sum_before
  sum_before-sum_end i h p = let a = sums.indexed in ground arith

  sum_before_mono : (i j : ℕ) → i ≤ j → j ≤ n → sum_before w i ≤ sum_before w j
  sum_before_mono i j h p =
      let a = sums.indexed in
      elim (Bool-cases (u64 (i + w.node_offset) == 0)) [
        | inl z ↦ sum_before_zero i z (sum_before w j)
        | inr z ↦
            let hi : 0 < i + w.node_offset = ground arith in
            let hj : 0 < j + w.node_offset = omega arith in
            let m =
              sums.ascending (i + w.node_offset - 1) (j + w.node_offset - 1) (omega arith)
                (let s = sums.some_node in omega arith) in
            rw
              (
                sum_before-sum_end i hi (omega arith),
                sum_before-sum_end j hj p,
                sum_end_lem i hi (omega arith),
                sum_end_lem j hj p,
              )
              (omega arith)
      ]

  -- No weight of a node wraps.
  pub weight_at_lem :
      (i : ℕ) → i < n → weight_at w i ≡ sum_before w i * w.edge_weight + i * w.node_weight
  unfolding weight_at
  weight_at_lem i h =
      let a = mul-le-mul_right w.edge_weight (sum_before_le i (omega arith)) in
      let b : i * w.node_weight ≤ n * w.node_weight =
        mul-le-mul_right w.node_weight (omega arith) in
      let c : e * w.edge_weight ≤ (e + 1) * w.edge_weight =
        mul-le-mul_right w.edge_weight (omega arith) in
      let d = sums.weighed in mod-eq_of_lt (omega arith)

  pub weight_at-Ascends : Ascends w n
  weight_at-Ascends i j h p =
      let a = mul-le-mul_right w.edge_weight (sum_before_mono i j h (omega arith)) in
      let b = mul-le-mul_right w.node_weight h in
      rw (weight_at_lem i (omega arith), weight_at_lem j p) (omega arith)

  -- Every node is lighter than all nodes and edges together.
  pub weight_at-lt : (i : ℕ) → i < n → weight_at w i < n * w.node_weight + (e + 1) * w.edge_weight
  weight_at-lt i h =
      let a = mul-le-mul_right w.edge_weight (sum_before_le i (omega arith)) in
      let b : (i + 1) * w.node_weight ≤ n * w.node_weight =
        mul-le-mul_right w.node_weight (omega arith) in
      let c = sums.some_weight in rw (weight_at_lem i h) (grind arith)
