-- ===== src/Divide/Units/Agree.antt =====
-- The calls of libcoro/include/galois/graphs/GraphHelpers.h on a graph, and those on all nodes.
use corograph.Divide.Units.{Graph, units_loop, units_from_prefix_sum_range, units_from_prefix_sum}
use corograph.Divide.Units.Corner.{Tiling, Tiling-to}
use corograph.Divide.Units.Handled.{end_all-Tiling}
use corograph.Divide.Units.Calls.{Call, range-Tiling, call-Division, loop-Tiling}
use corograph.Base.{
  ℕ, ◌+◌, ◌-◌, ◌^◌, ◌<◌, ◌≡◌, refl, inl, inr, ◌==◌, u32, arith, set, replicate, Bool-cases,
}

-- The ends of the edges are 64-bit numbers, and the nodes are counted in 32 bits.
pub record IsWords (g : Graph) : Type 0 where
  pub nodes : g.num_nodes < 2 ^ 32
  pub edges : (n : ℕ) → g.edge_ind_data n < 2 ^ 64

module _ {prefix : ℕ → ℕ} {units size node_alpha : ℕ}
    (call : Call prefix units 0 size node_alpha) where
  all_loop-Tiling :
      0 < size
      → Tiling units 0 size (
          units_loop
            record {
              node_weight = node_alpha;
              edge_weight = 1;
              prefix = prefix;
              edge_offset = 0;
              node_offset = 0;
            }
            size
            (prefix (size - 1))
            units
            units
            0
            (set (replicate (units + 1) 0) 0 0))
  all_loop-Tiling some =
      let b : size - 0 ≡ size = omega arith in
      rw b at (
        loop-Tiling call 0 (prefix (size - 1))
          (call-Division call 0 (prefix (size - 1)) some (λ h. omega arith) (λ h. omega arith)
            (omega arith))
          some)

  -- The two ways to divide all nodes by a prefix sum, as a whole and as the part from node 0, both
  -- give ranges that start at node 0, end behind the last node and are in order.
  pub all_ranges-Tiling :
      Tiling units 0 size (units_from_prefix_sum units prefix size node_alpha)
      × Tiling units 0 size (units_from_prefix_sum_range units prefix 0 size node_alpha)
  unfolding units_from_prefix_sum
  all_ranges-Tiling =
      let n : u32 size ≡ size = let h = call.small in omega arith in
      (
        elim (Bool-cases (size == 0)) [
          | inl z ↦
              let e : 0 ≡ size = ground arith in
              rw (n, z)
                (Tiling-to e (end_all-Tiling units 0 size call.some_unit (omega arith) call.small))
          | inr z ↦ rw (n, z) (all_loop-Tiling (ground arith))
        ],
        range-Tiling call (inl refl),
      )
