-- ===== src/Divide/Shares.antt =====
-- The shares of divideNodesBinarySearch, of libcoro/include/galois/graphs/GraphHelpers.h.
use native.Mathlib.Nat.{mul-le-mul_left, mod-eq_of_lt}
use corograph.Divide.{
  Weighing, Share, weight_at, find_index_prefix_sum, lower_node, block_lower, with_edges,
  divide_blocks, divide_nodes, block_weight, block_division,
}
use corograph.Divide.Search.{
  Cut, Cut-unique, Cut-mono, find_index_prefix_sum-Cut, reached, not_reached,
}
use corograph.Divide.Sums.{Sums, weight_at-Ascends, weight_at-lt}
use corograph.Divide.Blocks.{Rising, Fitting, Whole, block_weight-Whole, block_division-Rising}
use corograph.Base.{
  ℕ, suc, ◌+◌, ◌-◌, ◌*◌, ◌^◌, ◌≤◌, ◌<◌, ◌≡◌, ◌↔◌, refl, inl, inr, List, false, u32, u64, ◌==◌,
  arith, get_or, Bool-cases, ==_iff,
}

module _ {w : Weighing} {n e : ℕ} (sums : Sums w n e) where
  abbrev whole_weight : ℕ
  whole_weight = n * w.node_weight + (e + 1) * w.edge_weight

  module _ {block num_blocks : ℕ} (whole : Whole whole_weight block num_blocks) where
    target_lem : (b : ℕ) → b ≤ num_blocks → u64 (block * b) ≡ block * b
    target_lem b h =
        let a = mul-le-mul_left block h in let c = whole.fits in mod-eq_of_lt (omega arith)

    target_mono : (a b : ℕ) → a ≤ b → b ≤ num_blocks → u64 (block * a) ≤ u64 (block * b)
    target_mono a b h p =
        let m = mul-le-mul_left block h in
        rw (target_lem a (omega arith), target_lem b p) (omega arith)

    lower_node-Cut : (b : ℕ) → b ≤ num_blocks → Cut w n (u64 (block * b)) (lower_node w n block b)
    unfolding lower_node
    lower_node-Cut b h = elim (Bool-cases (b == 0)) [
      | inl z ↦ rw z record {
        inside = omega arith;
        below = λ i p. absurd (omega arith);
        above = λ i p q.
            let t : b ≡ 0 = (==_iff b 0).0 z in
            rw (t) (let m : block * 0 ≡ 0 = grind arith in rw m (omega arith));
      }
      | inr z ↦ rw z (
          find_index_prefix_sum-Cut w n (u64 (block * b)) (weight_at-Ascends sums) 0 (omega arith)
            (λ i p. absurd (omega arith)))
    ]

    upper_node-Cut :
        (a b : ℕ)
        → a ≤ b
        → b ≤ num_blocks
        → Cut w n
            (u64 (block * b))
            (find_index_prefix_sum w (u64 (block * b)) (lower_node w n block a) n)
    upper_node-Cut a b h p =
        let low = lower_node-Cut a (omega arith) in
        let m = target_mono a b h p in
        find_index_prefix_sum-Cut w n (u64 (block * b)) (weight_at-Ascends sums)
          (lower_node w n block a) low.inside (λ i q. let l = low.below i q in omega arith)

    -- The last block ends behind the last node.
    last-Cut : Cut w n (u64 (block * num_blocks)) n
    last-Cut = record {
      inside = omega arith;
      below = λ i p.
          let l = weight_at-lt sums i p in
          let c = whole.covers in rw (target_lem num_blocks (omega arith)) (omega arith);
      above = λ i p q. absurd (omega arith);
    }

-- What the callers of a division provide: the sums, and scale factors that fit.
pub record Division (w : Weighing) (n e total : ℕ) (scale_factor : List ℕ) : Type 0 where
  pub sums : Sums w n e
  pub some_division : 0 < total
  pub small : total < 2 ^ 32
  pub fitting : Fitting total scale_factor
  pub fits :
      n * w.node_weight + (e + 1) * w.edge_weight + (block_division total scale_factor).0 ≤ 2 ^ 64

module _ {w : Weighing} {n e total : ℕ} {scale_factor : List ℕ}
    (division : Division w n e total scale_factor) where
  abbrev blocks : ℕ
  blocks = (block_division total scale_factor).0

  abbrev ends : List ℕ
  ends = (block_division total scale_factor).1

  abbrev block : ℕ
  block = block_weight w n e blocks

  abbrev pub share : (id : ℕ) → Share
  share id = divide_nodes w n e id total scale_factor

  rising : Rising total blocks ends
  rising = block_division-Rising total scale_factor division.some_division division.fitting

  whole : Whole (whole_weight division.sums) block blocks
  whole = block_weight-Whole w n e blocks rising.some_block division.fits

  share_lem : (id : ℕ) → share id ≡ divide_blocks w n e id blocks ends
  unfolding divide_nodes
  share_lem id =
      let s = division.sums.some_node in
      let m = division.small in
      let f : (n == 0) ≡ false = ground arith in
      let u : u32 total ≡ total = omega arith in rw (f, u) refl

  ends_le : (id : ℕ) → id < total → get_or ends id 0 ≤ blocks
  ends_le id h =
      let a = rising.ascend id (total - 1) (omega arith) (omega arith) in
      let l = rising.last in omega arith

  block_lower_le : (id : ℕ) → id < total → block_lower ends id ≤ get_or ends id 0
  unfolding block_lower
  block_lower_le id h = let a = rising.ascend (id - 1) id (omega arith) h in ground arith

  pub lower-Cut :
      (id : ℕ) → id < total → Cut w n (u64 (block * block_lower ends id)) (share id).nodes_lower
  unfolding divide_blocks with_edges
  lower-Cut id h =
      let a = block_lower_le id h in
      let b = ends_le id h in
      rw (share_lem id) (lower_node-Cut division.sums whole (block_lower ends id) (omega arith))

  pub upper-Cut :
      (id : ℕ) → id < total → Cut w n (u64 (block * get_or ends id 0)) (share id).nodes_upper
  unfolding divide_blocks with_edges
  upper-Cut id h = rw (share_lem id) (
      upper_node-Cut division.sums whole (block_lower ends id) (get_or ends id 0)
        (block_lower_le id h) (ends_le id h))

  first_share : (share 0).nodes_lower ≡ 0
  unfolding divide_blocks with_edges lower_node block_lower
  first_share = rw (share_lem 0) refl

  last_share : (share (total - 1)).nodes_upper ≡ n
  last_share =
      let d = division.some_division in
      let c = upper-Cut (total - 1) (omega arith) in
      Cut-unique (rw rising.last at c) (last-Cut division.sums whole)

  share_next : (id : ℕ) → suc id < total → (share (suc id)).nodes_lower ≡ (share id).nodes_upper
  unfolding block_lower
  share_next id h =
      let i : (suc id == 0) ≡ false = ground arith in
      let j : suc id - 1 ≡ id = omega arith in
      let c = lower-Cut (suc id) h in Cut-unique (rw (i, j) at c) (upper-Cut id (omega arith))

  share_ordered : (id : ℕ) → id < total → (share id).nodes_lower ≤ (share id).nodes_upper
  share_ordered id h =
      Cut-mono
        (target_mono division.sums whole (block_lower ends id) (get_or ends id 0)
          (block_lower_le id h) (ends_le id h))
        (lower-Cut id h) (upper-Cut id h)

  -- The shares of `total` divisions tile the nodes: the first starts at node 0, each starts where
  -- the one before it ends, none ends before it starts, and the last ends behind the last node.
  pub shares_tile :
      ((share 0).nodes_lower ≡ 0)
      × ((share (total - 1)).nodes_upper ≡ n)
      × ((id : ℕ) → suc id < total → (share (suc id)).nodes_lower ≡ (share id).nodes_upper)
      × ((id : ℕ) → id < total → (share id).nodes_lower ≤ (share id).nodes_upper)
  shares_tile = (first_share, last_share, share_next, share_ordered)

  -- A node is in a share exactly when the weight up to it reaches the blocks before the share and
  -- does not reach the last block of the share.
  pub share_weights :
      (id i : ℕ)
      → id < total
      → i < n
      → ((((share id).nodes_lower ≤ i) × (i < (share id).nodes_upper)) ↔ (
          (block * block_lower ends id ≤ weight_at w i)
          × (weight_at w i < block * get_or ends id 0)))
  share_weights id i h p =
      let a = block_lower_le id h in
      let b = ends_le id h in
      let l = target_lem division.sums whole (block_lower ends id) (omega arith) in
      let u = target_lem division.sums whole (get_or ends id 0) b in
      let lc = rw l at (lower-Cut id h) in
      let uc = rw u at (upper-Cut id h) in
      (λ x. (lc.above i x.0 p, uc.below i x.1), λ y. (reached lc i y.0, not_reached uc i p y.1))
