-- ===== src/FileGraph/Block.antt =====
-- The block of `fromArrays` of libcoro/src/FileGraph.cpp: what it writes outside of the size that
-- `rawBlockSize` gives, and when it ends the program.
use corograph.FileGraph.{sizeof_dst, skip_edges, raw_block_size, write_arrays}
use corograph.FileGraph.Layout.{Bytes}
use corograph.FileGraph.Arrays.{data_back}
use corograph.Base.{ℕ, ◌+◌, ◌-◌, ◌*◌, ◌%◌, ◌^◌, ◌<◌, ◌≡◌, ◌∙◌, sym, ap, Bool, false, arith, some}

block_size_two :
    (n e s : ℕ)
    → 32 + 8 * n + 8 * e + s * e < 2 ^ 64
    → raw_block_size n e s 2 ≡ some (32 + 8 * n + 8 * e + s * e)
unfolding raw_block_size
block_size_two n e s h = ap some (omega arith)

module _ (little : Bool) (mem : ℕ → ℕ) (bytes : Bytes mem) (base : ℕ) (idx : ℕ → ℕ) (n : ℕ)
    (outs : ℕ → ℕ) (e : ℕ) (f : ℕ → ℕ) (s : ℕ)
    (fits : 32 + 8 * n + 8 * e + 8 * (e % 2) + s * e < 2 ^ 64) where
  -- In version 2 with an odd number of edges the edge data ends eight bytes behind the block of the
  -- size that `rawBlockSize` gives: the last byte behind it is the last byte of the edge data.
  pub writes_behind :
      (size : ℕ)
      → e % 2 ≡ 1
      → 0 < s
      → ((k : ℕ) → f k < 2 ^ 8)
      → raw_block_size n e s 2 ≡ some size
      → write_arrays little false mem base idx n outs e (some f) s 2 (base + size + 7)
        ≡ f (s * e - 1)
  unfolding skip_edges sizeof_dst
  writes_behind size odd some_byte small block =
      let q : some (32 + 8 * n + 8 * e + s * e) ≡ some size =
        sym (block_size_two n e s (omega arith)) ∙ block in
      let z : size ≡ 32 + 8 * n + 8 * e + s * e = ground arith in
      let positive : 0 < s * e = let o : 0 < e = omega arith in grind arith in
      let place : base + 32 + 8 * n + 8 * (e + e % 2) + (s * e - 1) ≡ base + size + 7 =
        omega arith in
      rw place at (
        data_back little mem bytes base idx n outs e f s 2 (s * e - 1) (omega arith)
          (small (s * e - 1)))
