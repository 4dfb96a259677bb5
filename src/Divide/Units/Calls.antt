-- ===== src/Divide/Units/Calls.antt =====
-- The calls of libcoro/include/galois/graphs/GraphHelpers.h that determine the ranges of the units.
use corograph.Divide.{Weighing, block_division}
use corograph.Divide.Shares.{Division}
use corograph.Divide.Units.{units_loop, loop_prefix_sum, units_from_prefix_sum_range, range_sanity}
use corograph.Divide.Units.Corner.{Tiling, Tiling-to, range_sanity-Tiling}
use corograph.Divide.Units.Handled.{
  corner, corner_case-Tiling, corner_case_rest, corner_case_astray,
}
use corograph.Divide.Units.Ranges.{units_loop-Tiling}
use corograph.Base.{
  ℕ, ◌+◌, ◌-◌, ◌*◌, ◌^◌, ◌≤◌, ◌<◌, ◌≡◌, ◌⊎◌, refl, inl, inr, [], true, false, ◌==◌, sub32, sub64,
  arith, get_or, set, replicate, Bool-cases,
}

-- What a caller provides: prefix sums that ascend up to the end of the range, and a weight of the
-- range that, with the number of units, fits 64 bits.
pub record Call (prefix : ℕ → ℕ) (units begin end node_alpha : ℕ) : Type 0 where
  pub some_unit : 0 < units
  pub few_units : units < 2 ^ 32
  pub ordered : begin ≤ end
  pub small : end < 2 ^ 32
  pub ascending : (i j : ℕ) → i ≤ j → j < end → prefix i ≤ prefix j
  pub weighed : (end - begin) * node_alpha + (prefix (end - 1) + 1) + units ≤ 2 ^ 64

-- The ranges that the corner cases handle as the loop would: from node 0, of no node, or with a
-- node for each unit.
abbrev pub Usual : (units begin end : ℕ) → Type 0
Usual units begin end = (begin ≡ 0) ⊎ ((begin ≡ end) ⊎ (units ≤ end - begin))

module _ {prefix : ℕ → ℕ} {units begin end node_alpha : ℕ}
    (call : Call prefix units begin end node_alpha) where
  abbrev weighing : (edge_offset : ℕ) → Weighing
  weighing edge_offset = record {
    node_weight = node_alpha;
    edge_weight = 1;
    prefix = prefix;
    edge_offset = edge_offset;
    node_offset = begin;
  }

  pub call-Division :
      (edge_offset e : ℕ)
      → begin < end
      → (0 < begin → edge_offset ≤ prefix (begin - 1))
      → (begin ≡ 0 → edge_offset ≡ 0)
      → edge_offset + e ≡ prefix (end - 1)
      → Division (weighing edge_offset) (end - begin) e units []
  unfolding block_division
  call-Division edge_offset e some starts starts_at_zero total =
      let c = call.weighed in
      let s = call.small in
      let m : (e + 1) * 1 ≡ e + 1 = omega arith in
      record {
        sums = record {
          some_node = omega arith;
          some_weight = omega arith;
          indexed = omega arith;
          ascending = λ i j p q. call.ascending i j p (omega arith);
          starts = starts;
          starts_at_zero = starts_at_zero;
          ends = let i : end - begin + begin - 1 ≡ end - 1 = omega arith in rw i (omega arith);
          counted = omega arith;
          weighed = let u = call.some_unit in omega arith;
        };
        some_division = call.some_unit;
        small = call.few_units;
        fitting = inl refl;
        fits = omega arith;
      }

  pub loop-Tiling :
      (edge_offset e : ℕ)
      → Division (weighing edge_offset) (end - begin) e units []
      → begin < end
      → Tiling units begin end (
          units_loop
            (weighing edge_offset)
            (end - begin)
            e
            units
            units
            0
            (set (replicate (units + 1) 0) 0 begin))
  loop-Tiling edge_offset e division some =
      let s = call.small in
      Tiling-to (omega arith)
        (units_loop-Tiling (weighing edge_offset) (end - begin) e units division (omega arith))

  loop_prefix_sum-Tiling :
      begin < end
      → Tiling units begin end
          (loop_prefix_sum prefix units begin end (replicate (units + 1) 0) node_alpha)
  unfolding loop_prefix_sum
  loop_prefix_sum-Tiling some =
      let s = call.small in
      let n : sub32 end begin ≡ end - begin = omega arith in
      elim (Bool-cases (begin == 0)) [
        | inl z ↦
            let b : begin ≡ 0 = ground arith in
            rw (z, n)
              ((loop-Tiling 0 (prefix (end - 1))
                (call-Division 0 (prefix (end - 1)) some (λ h. omega arith) (λ h. omega arith)
                  (omega arith))
                some))
        | inr z ↦
            let b : 0 < begin = ground arith in
            let o = call.ascending (begin - 1) (end - 1) (omega arith) (omega arith) in
            let c = call.weighed in
            let e : sub64 (prefix (end - 1)) (prefix (begin - 1))
                ≡ prefix (end - 1) - prefix (begin - 1) =
              omega arith in
            rw (z, n, e)
              ((loop-Tiling (prefix (begin - 1)) (prefix (end - 1) - prefix (begin - 1))
                (call-Division (prefix (begin - 1)) (prefix (end - 1) - prefix (begin - 1)) some
                  (λ h. omega arith) (λ h. omega arith) (omega arith))
                some))
      ]

  pub range-Tiling :
      Usual units begin end
      → Tiling units begin end (units_from_prefix_sum_range units prefix begin end node_alpha)
  unfolding units_from_prefix_sum_range
  range-Tiling usual =
      elim (Bool-cases (corner units begin end call.some_unit call.ordered call.small).0) [
        | inl h ↦
            rw h (corner_case-Tiling units begin end call.some_unit call.ordered call.small usual h)
        | inr h ↦
            let r = corner_case_rest units begin end call.some_unit call.ordered call.small h in
            rw (h, r.2) (loop_prefix_sum-Tiling r.0)
      ]

  -- The ranges that a prefix sum gives for a part of the nodes start at its first node, end at its
  -- end and are in order, and the assertions of unitRangeSanity hold of them, when the part starts at
  -- node 0, is empty or has a node for each unit.
  pub ranges_tile :
      Usual units begin end
      → let ranges = units_from_prefix_sum_range units prefix begin end node_alpha in
        Tiling units begin end ranges × (range_sanity units begin end ranges ≡ true)
  ranges_tile usual =
      let tiling = range-Tiling usual in (tiling, range_sanity-Tiling call.some_unit tiling)

  -- With more units than nodes, in a part that does not start at node 0, the last range ends at the
  -- number of nodes of the part in place of its end, and the assertions do not hold.
  pub range_astray :
      0 < begin
      → begin < end
      → end - begin < units
      → (get_or (units_from_prefix_sum_range units prefix begin end node_alpha) units 0
          ≡ end - begin)
        × (range_sanity units begin end
              (units_from_prefix_sum_range units prefix begin end node_alpha)
            ≡ false)
  unfolding units_from_prefix_sum_range range_sanity
  range_astray h p many =
      let c = corner_case_astray units begin end call.some_unit call.ordered call.small h p many in
      let l = c.1 in rw (c.0) (l, ground arith)
