-- ===== src/FileGraph/Arrays.antt =====
-- The arrays that `fromArrays` of libcoro/src/FileGraph.cpp lays out in a block, read back from it.
use native.Mathlib.Nat.{mul-le-mul_left}
use corograph.Endian.{load_le, store_le, host_store, convert_htole64}
use corograph.Endian.Bytes.{stored_bytes}
use corograph.FileGraph.{
  sizeof_dst, skip_edges, write_words, write_header, write_edges, write_arrays,
}
use corograph.FileGraph.Words.{load_le_cong, write_words_frame, write_words_read, write_words_small}
use corograph.FileGraph.Layout.{
  Bytes, Copied, header_small, header_frame, header_read, edges_frame, edges_read, edges_small,
  data_frame, data_small, data_read,
}
use corograph.Base.{
  ℕ, suc, ◌+◌, ◌*◌, ◌%◌, ◌^◌, ◌≤◌, ◌<◌, ◌≡◌, ◌⊎◌, ◌∙◌, inl, inr, Bool, false, arith, Option, some,
}

module _ (little : Bool) (mem : ℕ → ℕ) (bytes : Bytes mem) (base : ℕ) (idx : ℕ → ℕ) (n : ℕ)
    (outs : ℕ → ℕ) (e : ℕ) (d : Option (ℕ → ℕ)) (s version : ℕ) where
  abbrev pub written : ℕ → ℕ
  written = write_arrays little false mem base idx n outs e d s version

  abbrev headed : ℕ → ℕ
  headed = write_header little mem base version s n e

  abbrev indexed : ℕ → ℕ
  indexed = write_words little 8 headed (base + 32) (λ i. convert_htole64 little (idx i)) n 0

  abbrev edges_at : ℕ
  edges_at = base + 32 + 8 * n

  abbrev pub past : ℕ
  past = skip_edges version edges_at e

  abbrev edged : ℕ → ℕ
  edged = write_edges little false indexed version edges_at outs e

  past_le : edges_at + sizeof_dst version * e ≤ past
  unfolding skip_edges
  past_le =
      let m : sizeof_dst version * e ≤ sizeof_dst version * (e + e % 2) =
        mul-le-mul_left (sizeof_dst version) (omega arith) in
      omega arith

  index_same :
      (i q : ℕ) (m : ℕ → ℕ)
      → host_store little 8 m q (convert_htole64 little (idx i)) ≡ store_le 8 m q (idx i)
  index_same i q m = (stored_bytes little m q (idx i)).0

  pub written_small : Bytes written
  unfolding write_arrays
  written_small = data_small edged past d (s * e) (
      edges_small little indexed version edges_at outs e (
        write_words_small little 8 (base + 32) _ idx index_same n 0 headed
          (header_small little mem bytes base version s n e)))

  -- Below the edge data, below the edges, and below the index.
  written-edged : (a : ℕ) → a < past → written a ≡ edged a
  unfolding write_arrays
  written-edged a h = data_frame edged past d (s * e) a (inl h)

  written-indexed : (a : ℕ) → a < edges_at → written a ≡ indexed a
  written-indexed a h =
      let l = past_le in
      written-edged a (omega arith) ∙ edges_frame little indexed version edges_at outs e a (inl h)

  written-headed : (a : ℕ) → a < base + 32 → written a ≡ headed a
  written-headed a h =
      written-indexed a (omega arith)
      ∙ write_words_frame little 8 (base + 32) _ idx index_same n 0 headed a (inl (omega arith))

  pub header_back :
      version < 2 ^ 64
      → s < 2 ^ 64
      → n < 2 ^ 64
      → e < 2 ^ 64
      → (load_le 8 written (base + 8 * 0) ≡ version)
        × (load_le 8 written (base + 8 * 1) ≡ s)
        × (load_le 8 written (base + 8 * 2) ≡ n)
        × (load_le 8 written (base + 8 * 3) ≡ e)
  header_back hv hs hn he =
      let r = header_read little mem bytes base version s n e hv hs hn he in
      (
        load_le_cong 8 written headed (base + 8 * 0) (λ a p q. written-headed a (omega arith))
            ∙ r.0,
        load_le_cong 8 written headed (base + 8 * 1) (λ a p q. written-headed a (omega arith))
            ∙ r.1,
        load_le_cong 8 written headed (base + 8 * 2) (λ a p q. written-headed a (omega arith))
            ∙ r.2,
        load_le_cong 8 written headed (base + 8 * 3) (λ a p q. written-headed a (omega arith))
            ∙ r.3,
      )

  pub index_back : (k : ℕ) → k < n → idx k < 2 ^ 64 → load_le 8 written (base + 32 + 8 * k) ≡ idx k
  index_back k h small =
      load_le_cong 8 written indexed (base + 32 + 8 * k) (λ a p q. written-indexed a (omega arith))
      ∙ write_words_read little 8 (base + 32) _ idx index_same n 0 k headed (omega arith)
          (omega arith) (omega arith)

  pub edge_back :
      (k : ℕ)
      → k < e
      → outs k < 256 ^ sizeof_dst version
      → load_le (sizeof_dst version) written (edges_at + sizeof_dst version * k) ≡ outs k
  edge_back k h small =
      let l = past_le in
      let m : sizeof_dst version * suc k ≤ sizeof_dst version * e =
        mul-le-mul_left (sizeof_dst version) h in
      let g : sizeof_dst version * suc k ≡ sizeof_dst version * k + sizeof_dst version =
        grind arith in
      load_le_cong (sizeof_dst version) written edged (edges_at + sizeof_dst version * k)
        (λ a p q. written-edged a (omega arith))
      ∙ edges_read little indexed version edges_at outs e k h small

  -- Nothing else is written.
  pub written_frame :
      (a : ℕ)
      → (a < base) ⊎ ((edges_at + sizeof_dst version * e ≤ a) × Copied d (s * e) past a)
      → written a ≡ mem a
  unfolding write_arrays
  written_frame a (inl h) =
      written-headed a (omega arith) ∙ header_frame little mem bytes base version s n e a (inl h)
  written_frame a (inr (h, c)) =
      data_frame edged past d (s * e) a (inr c)
      ∙ edges_frame little indexed version edges_at outs e a (inr h)
      ∙ write_words_frame little 8 (base + 32) _ idx index_same n 0 headed a (inr (omega arith))
      ∙ header_frame little mem bytes base version s n e a (inr (omega arith))

-- The edge data lies behind the padding.
pub data_back :
    (little : Bool) (mem : ℕ → ℕ) (bytes : Bytes mem) (base : ℕ) (idx : ℕ → ℕ) (n : ℕ)
    (outs : ℕ → ℕ) (e : ℕ) (f : ℕ → ℕ) (s version k : ℕ)
    → k < s * e
    → f k < 2 ^ 8
    → write_arrays little false mem base idx n outs e
        (some f)
        s
        version
        (skip_edges version (base + 32 + 8 * n) e + k)
      ≡ f k
unfolding write_arrays
data_back little mem bytes base idx n outs e f s version k h small =
    data_read _ _ f (s * e) k h small
