-- ===== src/FileGraph/Reads.antt =====
-- What the accessors of libcoro/src/FileGraph.cpp read in a graph that `fromArrays` made, and the
-- bytes that it writes.
use corograph.Endian.{load_le}
use corograph.Endian.Bytes.{loaded_bytes}
use corograph.FileGraph.{
  FileGraph, known_version, skip_edges, header_word, from_mem, raw_block_size, sized, loaded,
  from_arrays, edge_begin, edge_end, get_edge_dst,
}
use corograph.FileGraph.Layout.{Bytes}
use corograph.FileGraph.Arrays.{written, written_small, header_back}
use corograph.Base.{
  ℕ, ◌+◌, ◌-◌, ◌*◌, ◌^◌, ◌≤◌, ◌<◌, ◌≡◌, ◌∙◌, inl, inr, refl, Bool, true, false, ◌==◌, if◌then◌else◌,
  arith, Bool-cases, Option, some, u32,
}

-- The arrays are what the accessors give.
pub record Reads (little : Bool) (mem : ℕ → ℕ) (g : FileGraph) (idx : ℕ → ℕ) (n : ℕ) (outs : ℕ → ℕ)
    (e : ℕ) (f : ℕ → ℕ) (s : ℕ) : Type 0 where
  pub nodes : g.num_nodes ≡ n
  pub edges : g.num_edges ≡ e
  pub sizeof : g.sizeof_edge ≡ s
  pub begins : (k : ℕ) → k ≤ n → edge_begin little mem g k ≡ (if k == 0 then 0 else idx (k - 1))
  pub ends : (k : ℕ) → k < n → edge_end little mem g k ≡ idx k
  pub destinations : (k : ℕ) → k < e → get_edge_dst little mem g k ≡ some (outs k)
  pub edge_values : (k : ℕ) → k < s * e → mem (g.edge_data + k) ≡ f k

module _ (little : Bool) (mem : ℕ → ℕ) (bytes : Bytes mem) (base : ℕ) (idx : ℕ → ℕ) (n : ℕ)
    (outs : ℕ → ℕ) (e : ℕ) (d : Option (ℕ → ℕ)) (s version node_offset edge_offset : ℕ)
    (good : known_version version ≡ true) (hs : s < 2 ^ 64) (hn : n < 2 ^ 64)
    (he : e < 2 ^ 64) where
  abbrev mem' : ℕ → ℕ
  mem' = written little mem bytes base idx n outs e d s version

  abbrev made : FileGraph
  made = record {
    sizeof_edge = s;
    num_nodes = n;
    num_edges = e;
    out_idx = base + 32;
    outs = base + 32 + 8 * n;
    edge_data = skip_edges version (base + 32 + 8 * n) e;
    graph_version = version;
    node_offset = node_offset;
    edge_offset = edge_offset;
  }

  low_version : version < 3
  unfolding known_version
  low_version = let g = good in ground arith

  word_lem : (k : ℕ) → header_word little mem' base k ≡ load_le 8 mem' (base + 8 * k)
  unfolding header_word
  word_lem k =
      (loaded_bytes little mem' (base + 8 * k)
        (written_small little mem bytes base idx n outs e d s version)).0

  from_mem-made : from_mem little mem' base node_offset edge_offset 0 ≡ some made
  unfolding from_mem
  from_mem-made =
      let v = low_version in
      let h = header_back little mem bytes base idx n outs e d s version (omega arith) hs hn he in
      let u : u32 version ≡ version = omega arith in
      let z : (0 == 0) ≡ true = ground arith in
      rw (word_lem 0 ∙ h.0, word_lem 1 ∙ h.1, word_lem 2 ∙ h.2, word_lem 3 ∙ h.3, u, good) refl

  block_known : (size : ℕ) × (raw_block_size n e s version ≡ some size)
  unfolding raw_block_size known_version
  block_known = elim (Bool-cases (version == 1)) [
    | inl v ↦ rw v (_, refl)
    | inr v ↦ let w : (version == 2) ≡ true = let g = good in ground arith in rw (v, w) (_, refl)
  ]

  pub from_arrays-made :
      from_arrays little false mem (some base) idx n outs e d s node_offset edge_offset version
      ≡ some (made, mem')
  unfolding from_arrays loaded sized
  from_arrays-made = let b = block_known in rw (b.1, from_mem-made) refl
