-- ===== src/FileGraph.antt =====
-- Graph files, of libcoro/src/FileGraph.cpp: the fields of a `FileGraph`, the arrays that
-- `fromArrays` lays out in a mapping, and what the accessors read. `mem` holds a byte at each
-- address, `little` is the byte order of the host, and `none` is the end of the program by GALOIS_DIE.
pub mod Words
pub mod Layout
pub mod Arrays
pub mod Reads
pub mod Block
pub mod Part
pub mod Neighbors
mod Tests
use corograph.Endian.{
  convert_le64toh, convert_le32toh, convert_htole64, convert_htole32, host_store, host_load,
}
use corograph.Base.{
  ℕ, zero, suc, ◌+◌, ◌-◌, ◌*◌, ◌%◌, ◌^◌, min, Bool, true, false, not, ◌&&◌, ◌||◌, Option, none,
  some, ltb, ◌==◌, if◌then◌else◌, u32, u64, sub64,
}

pub record FileGraph : Type 0 where
  pub sizeof_edge : ℕ
  pub num_nodes : ℕ
  pub num_edges : ℕ
  pub out_idx : ℕ
  pub outs : ℕ
  pub edge_data : ℕ
  pub graph_version : ℕ
  pub node_offset : ℕ
  pub edge_offset : ℕ

-- Whether the version is one of the two that the code knows.
unfoldable pub known_version : (version : ℕ) → Bool
known_version version = (version == 1) || (version == 2)

-- The size of the number of a node, and the address behind the destinations with their padding.
unfoldable pub sizeof_dst : (version : ℕ) → ℕ
sizeof_dst version = if version == 1 then 4 else 8

unfoldable pub skip_edges : (version fptr num_edges : ℕ) → ℕ
skip_edges version fptr num_edges = fptr + sizeof_dst version * (num_edges + num_edges % 2)

-- A word of the header.
unfoldable pub header_word : (little : Bool) → (ℕ → ℕ) → (m k : ℕ) → ℕ
header_word little mem m k = convert_le64toh little (host_load little 8 mem (m + 8 * k))

-- The version is kept in 32 bits. Without a limit on the length, or within it, there is edge data.
unfoldable pub from_mem :
    (little : Bool) → (ℕ → ℕ) → (m node_offset edge_offset lenlimit : ℕ) → Option FileGraph
from_mem little mem m node_offset edge_offset lenlimit =
    let version = u32 (header_word little mem m 0) in
    let num_nodes = header_word little mem m 2 in
    let num_edges = header_word little mem m 3 in
    let past = skip_edges version (m + 32 + 8 * num_nodes) num_edges in
    if known_version version
    then some record {
      sizeof_edge = header_word little mem m 1;
      num_nodes = num_nodes;
      num_edges = num_edges;
      out_idx = m + 32;
      outs = m + 32 + 8 * num_nodes;
      edge_data =
          if (lenlimit == 0) || ltb (u64 (num_edges + (past - m))) lenlimit then past else 0;
      graph_version = version;
      node_offset = node_offset;
      edge_offset = edge_offset;
    }
    else none

-- The bytes of a whole graph.
unfoldable pub raw_block_size : (num_nodes num_edges sizeof_edge_data version : ℕ) → Option ℕ
raw_block_size num_nodes num_edges sizeof_edge_data version =
    if version == 1
    then some (
        u64
          (32 + 8 * num_nodes + 4 * num_edges + 4 * (num_edges % 2) + sizeof_edge_data * num_edges))
    else if version == 2
    then some (u64 (32 + 8 * num_nodes + 8 * num_edges + sizeof_edge_data * num_edges))
    else none

-- Words written one behind the other, as a loop or `memcpy` writes them.
unfoldable pub write_words :
    (little : Bool) (w : ℕ) → (ℕ → ℕ) → (p : ℕ) → (ℕ → ℕ) → (left i : ℕ) → ℕ → ℕ
write_words little w mem p f zero i = mem
write_words little w mem p f (suc left) i =
    write_words little w (host_store little w mem (p + w * i) (f i)) p f left (suc i)

unfoldable pub write_header :
    (little : Bool) → (ℕ → ℕ) → (base version sizeof_edge_data num_nodes num_edges : ℕ) → ℕ → ℕ
write_header little mem base version sizeof_edge_data num_nodes num_edges =
    let put = λ (k x : ℕ) (mem : ℕ → ℕ).
      host_store little 8 mem (base + 8 * k) (convert_htole64 little x) in
    put 3 num_edges (put 2 num_nodes (put 1 sizeof_edge_data (put 0 version mem)))

-- Arrays of a caller are functions of the index. `converted` ones are copied as they are.
unfoldable pub write_edges :
    (little converted : Bool) → (ℕ → ℕ) → (version p : ℕ) → (outs : ℕ → ℕ) → (num_edges : ℕ) → ℕ → ℕ
write_edges little converted mem version p outs num_edges =
    if version == 1
    then write_words little 4 mem p
        (λ i. if converted then outs i else convert_htole32 little (outs i)) num_edges 0
    else write_words little 8 mem p
        (λ i. if converted then outs i else convert_htole64 little (outs i)) num_edges 0

unfoldable pub write_data : (ℕ → ℕ) → (p : ℕ) → (edge_data : Option (ℕ → ℕ)) → (length : ℕ) → ℕ → ℕ
write_data mem p none length = mem
write_data mem p (some edge_data) length = write_words true 1 mem p edge_data length 0

unfoldable pub write_arrays :
    (little converted : Bool)
    → (ℕ → ℕ)
    → (base : ℕ) → (out_idx : ℕ → ℕ) (num_nodes : ℕ) (outs : ℕ → ℕ) (num_edges : ℕ)
    → (edge_data : Option (ℕ → ℕ)) (sizeof_edge_data version : ℕ) → ℕ
    → ℕ
write_arrays little converted mem base out_idx num_nodes outs num_edges edge_data sizeof_edge_data
      version =
    let headed = write_header little mem base version sizeof_edge_data num_nodes num_edges in
    let indexed =
      write_words little 8 headed (base + 32)
        (λ i. if converted then out_idx i else convert_htole64 little (out_idx i)) num_nodes 0 in
    let edged =
      write_edges little converted indexed version (base + 32 + 8 * num_nodes) outs num_edges in
    write_data edged (skip_edges version (base + 32 + 8 * num_nodes) num_edges) edge_data
      (sizeof_edge_data * num_edges)

-- The graph that is loaded from the arrays just written, with the memory.
unfoldable pub loaded : Option FileGraph → (ℕ → ℕ) → Option (FileGraph × (ℕ → ℕ))
loaded none mem = none
loaded (some g) mem = some (g, mem)

-- A block needs a size.
unfoldable pub sized : Option ℕ → Option (FileGraph × (ℕ → ℕ)) → Option (FileGraph × (ℕ → ℕ))
sized none result = none
sized (some bytes) result = result

-- `mapped` is what `mmap` answers for the block, nothing when it fails.
unfoldable pub from_arrays :
    (little converted : Bool)
    → (ℕ → ℕ)
    → (mapped : Option ℕ) → (out_idx : ℕ → ℕ) (num_nodes : ℕ) (outs : ℕ → ℕ) (num_edges : ℕ)
    → (edge_data : Option (ℕ → ℕ)) (sizeof_edge_data node_offset edge_offset version : ℕ)
    → Option (FileGraph × (ℕ → ℕ))
from_arrays little converted mem none out_idx num_nodes outs num_edges edge_data sizeof_edge_data
      node_offset edge_offset version =
    none
from_arrays little converted mem (some base) out_idx num_nodes outs num_edges edge_data
      sizeof_edge_data node_offset edge_offset version =
    let written =
      write_arrays little converted mem base out_idx num_nodes outs num_edges edge_data
        sizeof_edge_data version in
    sized (raw_block_size num_nodes num_edges sizeof_edge_data version)
      (loaded (from_mem little written base node_offset edge_offset 0) written)

-- The edge that a word of the index stands for in this part of the graph.
unfoldable pub clip : FileGraph → ℕ → ℕ
clip g idx = sub64 (min idx (u64 (g.edge_offset + g.num_edges))) g.edge_offset

unfoldable pub edge_begin : (little : Bool) → (ℕ → ℕ) → FileGraph → ℕ → ℕ
edge_begin little mem g n =
    if ltb g.node_offset n
    then clip g
        (convert_le64toh little (host_load little 8 mem (g.out_idx + 8 * (n - 1 - g.node_offset))))
    else 0

unfoldable pub edge_end : (little : Bool) → (ℕ → ℕ) → FileGraph → ℕ → ℕ
edge_end little mem g n =
    if ltb n g.node_offset
    then 0
    else clip g
        (convert_le64toh little (host_load little 8 mem (g.out_idx + 8 * (n - g.node_offset))))

unfoldable pub get_edge_dst : (little : Bool) → (ℕ → ℕ) → FileGraph → ℕ → Option ℕ
get_edge_dst little mem g it =
    if g.graph_version == 1
    then some (convert_le32toh little (host_load little 4 mem (g.outs + 4 * it)))
    else if g.graph_version == 2
    then some (convert_le64toh little (host_load little 8 mem (g.outs + 8 * it)))
    else none
