-- ===== src/Partition.antt =====
-- The partitioned adjacency of libcoro/include/galois/graphs/Partition_Graph.h: the structures
-- `graph` and `vtxArr`, and the passes of `partition`. The edges of a vertex are cut into runs of
-- one destination partition. A run of at most `plD` edges is stored edge by edge; a longer one is
-- stored as a header word and the start of its edges in `highedge`. The first `inD` words of a
-- vertex are kept in its `vtxArr`, the others in `pledge`.
pub mod Scan
pub mod Count
pub mod Fill
pub mod RoundTrip
use corograph.Base.{
  ℕ, zero, suc, ◌+◌, ◌-◌, ◌*◌, ◌/◌, ◌%◌, ◌^◌, ◌<◌, ◌≡◌, Bool, true, false, not, ◌||◌, List, [], ◌∷◌,
  u32, u16, shr, shl32, get_or, min, ltb, leb, ◌==◌, if◌then◌else◌, bit_or,
}

-- The CSR arrays that `load_graph` fills.
pub record Csr : Type 0 where
  pub num_v : ℕ
  pub num_e : ℕ
  pub offset : List ℕ
  pub ngh : List ℕ
  pub weight : List ℕ

-- `vtxArr`, one cache line for each vertex.
pub record VtxArr : Type 0 where
  pub deg1 : ℕ
  pub deg2 : ℕ
  pub pe : List ℕ
  pub offset : ℕ

-- A read of an array of words.
abbrev pub at : List ℕ → ℕ → ℕ
at xs i = get_or xs i 0

abbrev pub max_bit : ℕ
max_bit = 2 ^ 31

abbrev pub dw_half : ℕ
dw_half = 2 ^ 16 - 1

abbrev pub min_hfup : ℕ
min_hfup = (2 ^ 15 - 1) * 2 ^ 16

-- `G.plD`: a run of at most so many edges is stored edge by edge.
abbrev pub pl_d : ℕ
pl_d = 2

-- `G.inD`: the words that a `vtxArr` holds.
abbrev pub in_d : ℕ
in_d = 14

-- `a - b` on uint32_t.
abbrev pub sub32 : ℕ → ℕ → ℕ
sub32 a b = u32 (a + 2 ^ 32 - b)

-- `while (pow2 <= blockVnum) { nlog++; pow2 <<= 1; }`
unfoldable pub log_loop : ℕ → ℕ → ℕ → ℕ → ℕ
log_loop zero block pow2 nlog = nlog
log_loop (suc fuel) block pow2 nlog =
    let rest = log_loop fuel block (shl32 pow2 1) (u32 (nlog + 1)) in
    if leb pow2 block then rest else nlog

-- `G.plog`: the logarithm of the partition size.
unfoldable pub part_log : ℕ → ℕ → ℕ
part_log num_v numthread = min (sub32 (log_loop 32 (num_v / numthread) 1 0) 1) 18

-- `G.pnum`: the number of partitions.
unfoldable pub part_num : ℕ → ℕ → ℕ
part_num num_v plog = u32 (num_v / u32 (2 ^ plog) + 1)

-- The header word of a stored run: `MAX_BIT | ((deg*2)<<HF_OFST) | prev_p`.
unfoldable pub header : ℕ → ℕ → ℕ
header deg prev_p = bit_or (bit_or max_bit (shl32 (u32 (deg * 2)) 16)) prev_p
