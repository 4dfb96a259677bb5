-- ===== src/Divide.antt =====
-- The division of a range of nodes into blocks of about the same weight, of
-- libcoro/include/galois/graphs/GraphHelpers.h and libcoro/src/GraphHelpers.cpp. A prefix sum is
-- a function of the index, as any type with `operator[]` serves.
pub mod Search
pub mod Sums
pub mod Blocks
pub mod Shares
pub mod Units
mod Tests
use corograph.Base.{
  ℕ, zero, suc, ◌+◌, ◌-◌, ◌*◌, ◌/◌, List, [], ◌∷◌, ltb, ◌==◌, if◌then◌else◌, u32, u64, sub64,
  get_or,
}

-- The arguments that the searches of one division share.
pub record Weighing : Type 0 where
  pub node_weight : ℕ
  pub edge_weight : ℕ
  pub prefix : ℕ → ℕ
  pub edge_offset : ℕ
  pub node_offset : ℕ

-- The edges before node `i`, read at the end of the node before it.
unfoldable pub sum_end : Weighing → ℕ → ℕ
sum_end w i = sub64 (w.prefix (u64 (sub64 i 1 + w.node_offset))) w.edge_offset

unfoldable pub sum_before : Weighing → ℕ → ℕ
sum_before w i = if u64 (i + w.node_offset) == 0 then 0 else sum_end w i

unfoldable pub weight_at : Weighing → ℕ → ℕ
weight_at w mid = u64 (sum_before w mid * w.edge_weight + mid * w.node_weight)

-- The loop of the search. `fuel` bounds its rounds: the range shrinks in each, so that its length
-- is enough. `mid` lies below `ub` and does not wrap.
unfoldable pub find_index : Weighing → (target fuel lb ub : ℕ) → ℕ
find_index w target zero lb ub = lb
find_index w target (suc fuel) lb ub =
    let mid = lb + (ub - lb) / 2 in
    let light = ltb (weight_at w mid) target in
    let rest =
      find_index w target fuel (if light then mid + 1 else lb) (if light then ub else mid) in
    if ltb lb ub then rest else lb

unfoldable pub find_index_prefix_sum : Weighing → (target lb ub : ℕ) → ℕ
find_index_prefix_sum w target lb ub = find_index w target (ub - lb) lb ub

-- The blocks of divisions that are all alike: 1, 2, 3, ...
unfoldable pub equal_blocks : (left i : ℕ) → List ℕ
equal_blocks zero i = []
equal_blocks (suc left) i = suc i ∷ equal_blocks left (suc i)

-- The running sums of the scale factors, behind their total.
unfoldable pub sum_blocks : (num_blocks : ℕ) → List ℕ → ℕ × List ℕ
sum_blocks num_blocks [] = (num_blocks, [])
sum_blocks num_blocks (s ∷ scale_factor) =
    let sum = u32 (num_blocks + s) in
    let rest = sum_blocks sum scale_factor in (rest.0, sum ∷ rest.1)

-- The number of blocks, and the last block of each division. The source asserts that a list of
-- scale factors that is not empty has one for each division.
unfoldable pub block_division : (num_divisions : ℕ) → List ℕ → ℕ × List ℕ
block_division num_divisions [] = (num_divisions, equal_blocks num_divisions 0)
block_division num_divisions (s ∷ scale_factor) = sum_blocks 0 (s ∷ scale_factor)

-- The nodes and the edges of one division.
pub record Share : Type 0 where
  pub nodes_lower : ℕ
  pub nodes_upper : ℕ
  pub edges_lower : ℕ
  pub edges_upper : ℕ

unfoldable pub block_weight : Weighing → (num_nodes num_edges num_blocks : ℕ) → ℕ
block_weight w num_nodes num_edges num_blocks =
    let weight = u64 (num_nodes * w.node_weight + (num_edges + 1) * w.edge_weight) in
    sub64 (weight + num_blocks) 1 / num_blocks

unfoldable pub block_lower : List ℕ → (id : ℕ) → ℕ
block_lower scale_factor id = if id == 0 then 0 else get_or scale_factor (id - 1) 0

unfoldable pub lower_node : Weighing → (num_nodes weight lower : ℕ) → ℕ
lower_node w num_nodes weight lower =
    if lower == 0 then 0 else find_index_prefix_sum w (u64 (weight * lower)) 0 num_nodes

-- The nodes of a division with their edges.
unfoldable pub with_edges : Weighing → (num_edges lower upper : ℕ) → Share
with_edges w num_edges lower upper = record {
  nodes_lower = lower;
  nodes_upper = upper;
  edges_lower = if lower == upper then num_edges else sum_before w lower;
  edges_upper = if lower == upper then num_edges else sum_end w upper;
}

unfoldable pub divide_blocks :
    Weighing → (num_nodes num_edges id : ℕ) → (num_blocks : ℕ) → List ℕ → Share
divide_blocks w num_nodes num_edges id num_blocks scale_factor =
    let weight = block_weight w num_nodes num_edges num_blocks in
    let lower = lower_node w num_nodes weight (block_lower scale_factor id) in
    with_edges w num_edges lower
      (find_index_prefix_sum w (u64 (weight * get_or scale_factor id 0)) lower num_nodes)

unfoldable pub divide_nodes :
    Weighing → (num_nodes num_edges id total : ℕ) → (scale_factor : List ℕ) → Share
divide_nodes w num_nodes num_edges id total scale_factor =
    let blocks = block_division (u32 total) scale_factor in
    if num_nodes == 0
    then record { nodes_lower = 0; nodes_upper = 0; edges_lower = 0; edges_upper = 0 }
    else divide_blocks w num_nodes num_edges id blocks.0 blocks.1
