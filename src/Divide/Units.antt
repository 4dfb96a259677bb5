-- ===== src/Divide/Units.antt =====
-- The ranges of nodes of the units of execution, of libcoro/include/galois/graphs/GraphHelpers.h
-- and libcoro/src/GraphHelpers.cpp. A vector of the source is a list, resized with zeros.
pub mod Corner
pub mod Handled
pub mod Calls
pub mod Ranges
pub mod Agree
use corograph.Divide.{Weighing, Share, divide_nodes}
use corograph.Base.{
  ℕ, zero, suc, ◌+◌, ◌-◌, List, [], ◌∷◌, Bool, true, false, not, ◌&&◌, ◌||◌, ltb, leb, ◌==◌,
  if◌then◌else◌, u32, sub32, sub64, get_or, set, replicate,
}

-- Units from `i` on get the same end.
unfoldable pub end_all : (left i end : ℕ) → List ℕ → List ℕ
end_all zero i end ranges = ranges
end_all (suc left) i end ranges = end_all left (suc i) end (set ranges (suc i) end)

-- Units from `i` on get one node each.
unfoldable pub one_each : (left i current_node : ℕ) → List ℕ → List ℕ
one_each zero i current_node ranges = ranges
one_each (suc left) i current_node ranges =
    one_each left (suc i) (u32 (current_node + 1)) (set ranges (suc i) (u32 (current_node + 1)))

-- Whether the case is handled, and the ranges then.
unfoldable pub corner_case : (units begin end : ℕ) → List ℕ → Bool × List ℕ
corner_case units begin end ranges =
    let total = sub32 end begin in
    if begin == end
    then (true, end_all units 0 begin (set ranges 0 begin))
    else if units == 1
    then (true, set (set ranges 0 begin) 1 end)
    else if ltb total units
    then (true, end_all (units - total) total total (one_each total 0 begin (set ranges 0 begin)))
    else (false, ranges)

-- The loop over the units. `i` is the next one, and the nodes of the division are relative to the
-- first node.
unfoldable pub units_loop : Weighing → (num_nodes num_edges units left i : ℕ) → List ℕ → List ℕ
units_loop w num_nodes num_edges units zero i ranges = ranges
units_loop w num_nodes num_edges units (suc left) i ranges =
    let split = divide_nodes w num_nodes num_edges i units [] in
    units_loop w num_nodes num_edges units left (suc i) (
      set ranges (suc i) (
        if split.nodes_lower == split.nodes_upper
        then get_or ranges i 0
        else u32 (split.nodes_upper + w.node_offset)))

-- A graph by the ends of the edges of its nodes.
pub record Graph : Type 0 where
  pub num_nodes : ℕ
  pub edge_ind_data : ℕ → ℕ

unfoldable pub raw_begin : Graph → ℕ → ℕ
raw_begin g n = if n == 0 then 0 else g.edge_ind_data (n - 1)

unfoldable pub raw_end : Graph → ℕ → ℕ
raw_end g n = g.edge_ind_data n

unfoldable pub loop_graph : Graph → (units begin end : ℕ) → List ℕ → (node_alpha : ℕ) → List ℕ
loop_graph g units begin end ranges node_alpha =
    units_loop
      record {
        node_weight = node_alpha;
        edge_weight = 1;
        prefix = raw_end g;
        edge_offset = raw_begin g begin;
        node_offset = begin;
      }
      (sub32 end begin) (sub64 (raw_end g (end - 1)) (raw_begin g begin)) units units 0
      (set ranges 0 begin)

unfoldable pub loop_prefix_sum :
    (prefix : ℕ → ℕ) (units begin end : ℕ) → List ℕ → (node_alpha : ℕ) → List ℕ
loop_prefix_sum prefix units begin end ranges node_alpha =
    let num_edges =
      if begin == 0 then prefix (end - 1) else sub64 (prefix (end - 1)) (prefix (begin - 1)) in
    units_loop
      record {
        node_weight = node_alpha;
        edge_weight = 1;
        prefix = prefix;
        edge_offset = if begin == 0 then 0 else prefix (begin - 1);
        node_offset = begin;
      }
      (sub32 end begin) num_edges units units 0 (set ranges 0 begin)

-- The two calls on a range of nodes.
unfoldable pub units_from_graph_range : Graph → (units begin end node_alpha : ℕ) → List ℕ
units_from_graph_range g units begin end node_alpha =
    let corner = corner_case units begin end (replicate (units + 1) 0) in
    if corner.0 then corner.1 else loop_graph g units begin end corner.1 node_alpha

unfoldable pub units_from_prefix_sum_range :
    (units : ℕ) → (prefix : ℕ → ℕ) → (begin end node_alpha : ℕ) → List ℕ
units_from_prefix_sum_range units prefix begin end node_alpha =
    let corner = corner_case units begin end (replicate (units + 1) 0) in
    if corner.0 then corner.1 else loop_prefix_sum prefix units begin end corner.1 node_alpha

-- The two calls on all nodes.
unfoldable pub units_from_graph : Graph → (units node_alpha : ℕ) → List ℕ
units_from_graph g units node_alpha =
    let corner = corner_case units 0 (u32 g.num_nodes) (replicate (units + 1) 0) in
    if corner.0 then corner.1 else loop_graph g units 0 (u32 g.num_nodes) corner.1 node_alpha

unfoldable pub units_from_prefix_sum :
    (units : ℕ) → (prefix : ℕ → ℕ) → (size node_alpha : ℕ) → List ℕ
units_from_prefix_sum units prefix size node_alpha =
    let num_nodes = u32 size in
    let ranges = set (replicate (units + 1) 0) 0 0 in
    if num_nodes == 0
    then end_all units 0 0 ranges
    else units_loop
        record {
          node_weight = node_alpha;
          edge_weight = 1;
          prefix = prefix;
          edge_offset = 0;
          node_offset = 0;
        }
        num_nodes (prefix (num_nodes - 1)) units units 0 ranges

-- The assertions on the ranges of the units from `i` on.
unfoldable pub sane_from : (left i begin end : ℕ) → List ℕ → Bool
sane_from zero i begin end ranges = true
sane_from (suc left) i begin end ranges =
    let rest = sane_from left (suc i) begin end ranges in
    leb begin (get_or ranges i 0)
    && leb (get_or ranges i 0) end
    && leb (get_or ranges (i - 1) 0) (get_or ranges i 0)
    && rest

-- Whether all assertions hold.
unfoldable pub range_sanity : (units begin end : ℕ) → List ℕ → Bool
range_sanity units begin end ranges =
    (get_or ranges 0 0 == begin)
    && (get_or ranges units 0 == end)
    && sane_from (units - 1) 1 begin end ranges
