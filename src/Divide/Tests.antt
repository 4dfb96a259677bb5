-- ===== src/Divide/Tests.antt =====
-- Divisions of nine nodes with one, three, three and then two edges each.
use corograph.Divide.{
  Weighing, divide_nodes, block_division, find_index_prefix_sum, find_index, weight_at, sum_before,
  sum_end, divide_blocks, with_edges, lower_node, block_lower, block_weight, sum_blocks,
}
use corograph.Divide.Blocks.{factor_sum}
use corograph.Divide.Shares.{Division, shares_tile, share_weights}
use corograph.Divide.Units.{
  Graph, units_from_prefix_sum_range, units_from_prefix_sum, range_sanity, corner_case, end_all,
  one_each,
}
use corograph.Divide.Units.Corner.{Tiling}
use corograph.Divide.Units.Calls.{Call, ranges_tile, range_astray}
use corograph.Divide.Units.Agree.{all_ranges-Tiling}
use corograph.Base.{
  ℕ, suc, ◌+◌, ◌-◌, ◌*◌, ◌≤◌, ◌<◌, ◌≡◌, ◌↔◌, refl, inr, List, [], ◌∷◌, true, false, min, arith,
  get_or,
}

abbrev edge_ends : ℕ → ℕ
edge_ends i = 2 * i + min i 2 + 1

abbrev weighing : Weighing
weighing = record {
  node_weight = 1;
  edge_weight = 2;
  prefix = edge_ends;
  edge_offset = 0;
  node_offset = 0;
}

-- Two divisions, the second three times as large.
abbrev factors : List ℕ
factors = 1 ∷ 3 ∷ []

ninths : Division weighing 9 19 2 factors
unfolding block_division sum_blocks factor_sum
ninths = record {
  sums = record {
    some_node = omega arith;
    some_weight = omega arith;
    indexed = omega arith;
    ascending = λ i j h p. omega arith;
    starts = λ h. omega arith;
    starts_at_zero = λ h. refl;
    ends = omega arith;
    counted = omega arith;
    weighed = omega arith;
  };
  some_division = omega arith;
  small = omega arith;
  fitting = inr (refl, omega arith, omega arith);
  fits = omega arith;
}

divided :
    divide_nodes weighing 9 19 1 2 factors
    ≡ record { nodes_lower = 3; nodes_upper = 9; edges_lower = 7; edges_upper = 19 }
unfolding divide_nodes block_division sum_blocks divide_blocks with_edges lower_node block_lower
    block_weight find_index_prefix_sum find_index weight_at sum_before sum_end
divided = refl

shares_tile_example :
    ((divide_nodes weighing 9 19 0 2 factors).nodes_lower ≡ 0)
    × ((divide_nodes weighing 9 19 (2 - 1) 2 factors).nodes_upper ≡ 9)
    × ((id : ℕ)
        → suc id < 2
        → (divide_nodes weighing 9 19 (suc id) 2 factors).nodes_lower
          ≡ (divide_nodes weighing 9 19 id 2 factors).nodes_upper)
    × ((id : ℕ)
        → id < 2
        → (divide_nodes weighing 9 19 id 2 factors).nodes_lower
          ≤ (divide_nodes weighing 9 19 id 2 factors).nodes_upper)
shares_tile_example = shares_tile ninths

upper_part :
    (divide_nodes weighing 9 19 1 2 factors).nodes_lower
    < (divide_nodes weighing 9 19 1 2 factors).nodes_upper
unfolding divide_nodes block_division sum_blocks divide_blocks with_edges lower_node block_lower
    block_weight find_index_prefix_sum find_index weight_at sum_before sum_end
upper_part = omega arith

share_weights_example :
    ((((divide_nodes weighing 9 19 1 2 factors).nodes_lower ≤ 4)
        × (4 < (divide_nodes weighing 9 19 1 2 factors).nodes_upper))
      ↔ ((block_weight weighing 9 19 (block_division 2 factors).0
              * block_lower (block_division 2 factors).1 1
            ≤ weight_at weighing 4)
          × (weight_at weighing 4
              < block_weight weighing 9 19 (block_division 2 factors).0
                * get_or (block_division 2 factors).1 1 0)))
share_weights_example = share_weights ninths 1 4 (omega arith) (omega arith)

-- Nodes 2 to 7 in three units.
ends-Call : Call edge_ends 3 2 8 1
ends-Call = record {
  some_unit = omega arith;
  few_units = omega arith;
  ordered = omega arith;
  small = omega arith;
  ascending = λ i j h p. omega arith;
  weighed = omega arith;
}

ranges_tile_example :
    Tiling 3 2 8 (units_from_prefix_sum_range 3 edge_ends 2 8 1)
    × (range_sanity 3 2 8 (units_from_prefix_sum_range 3 edge_ends 2 8 1) ≡ true)
ranges_tile_example = ranges_tile ends-Call (inr (inr (omega arith)))

-- Nodes 4 and 5 in three units.
few-Call : Call edge_ends 3 4 6 1
few-Call = record {
  some_unit = omega arith;
  few_units = omega arith;
  ordered = omega arith;
  small = omega arith;
  ascending = λ i j h p. omega arith;
  weighed = omega arith;
}

astray : units_from_prefix_sum_range 3 edge_ends 4 6 1 ≡ 4 ∷ 5 ∷ 6 ∷ 2 ∷ []
unfolding units_from_prefix_sum_range corner_case end_all one_each
astray = refl

range_astray_example :
    (get_or (units_from_prefix_sum_range 3 edge_ends 4 6 1) 3 0 ≡ 6 - 4)
    × (range_sanity 3 4 6 (units_from_prefix_sum_range 3 edge_ends 4 6 1) ≡ false)
range_astray_example = range_astray few-Call (omega arith) (omega arith) (omega arith)

abbrev graph : Graph
graph = record { num_nodes = 9; edge_ind_data = λ n. min (edge_ends n) 19 }

all-Call : Call edge_ends 3 0 9 1
all-Call = record {
  some_unit = omega arith;
  few_units = omega arith;
  ordered = omega arith;
  small = omega arith;
  ascending = λ i j h p. omega arith;
  weighed = omega arith;
}

nine-Tiling : Tiling 3 0 9 (units_from_prefix_sum 3 edge_ends 9 1)
nine-Tiling = (all_ranges-Tiling all-Call).0
