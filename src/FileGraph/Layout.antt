-- ===== src/FileGraph/Layout.antt =====
-- The memory that `fromArrays` of libcoro/src/FileGraph.cpp leaves: each part of the block holds what
-- was written there.
use corograph.Endian.{store_le, load_le, host_store}
use corograph.Endian.Bytes.{store_le_frame, load_le-store_le, store_le_small, stored_bytes}
use corograph.FileGraph.{sizeof_dst, write_header, write_edges, write_data}
use corograph.FileGraph.Words.{load_le_cong, write_words_frame, write_words_read, write_words_small}
use corograph.Base.{
  ℕ, ◌+◌, ◌*◌, ◌^◌, ◌≤◌, ◌<◌, ◌≡◌, ◌⊎◌, ◌∙◌, inl, inr, refl, Bool, true, false, ◌==◌, arith,
  Bool-cases, Option, none, some,
}

abbrev pub Bytes : (ℕ → ℕ) → Type 0
Bytes mem = (a : ℕ) → mem a < 2 ^ 8

-- A read beside a write.
beside :
    (w v : ℕ) (m : ℕ → ℕ) (p q x : ℕ)
    → (p + w ≤ q) ⊎ (q + v ≤ p)
    → load_le w (store_le v m q x) p ≡ load_le w m p
beside w v m p q x h =
    load_le_cong w (store_le v m q x) m p (λ a b c. store_le_frame v m q x a (ground arith))

module _ (little : Bool) (mem : ℕ → ℕ) (bytes : Bytes mem) (base version s n e : ℕ) where
  abbrev header : ℕ → ℕ
  header = write_header little mem base version s n e

  abbrev plain : ℕ → ℕ
  plain =
      store_le 8
        (store_le 8 (store_le 8 (store_le 8 mem (base + 8 * 0) version) (base + 8 * 1) s)
          (base + 8 * 2) n)
        (base + 8 * 3) e

  header-plain : header ≡ plain
  unfolding write_header
  header-plain =
      let a = (stored_bytes little mem (base + 8 * 0) version).0 in
      let m1 = store_le 8 mem (base + 8 * 0) version in
      let b = (stored_bytes little m1 (base + 8 * 1) s).0 in
      let m2 = store_le 8 m1 (base + 8 * 1) s in
      let c = (stored_bytes little m2 (base + 8 * 2) n).0 in
      let m3 = store_le 8 m2 (base + 8 * 2) n in
      let d = (stored_bytes little m3 (base + 8 * 3) e).0 in rw (a, b, c, d) refl

  pub header_small : Bytes header
  header_small = rw header-plain (
      store_le_small 8 _ (base + 8 * 3) e (
        store_le_small 8 _ (base + 8 * 2) n (
          store_le_small 8 _ (base + 8 * 1) s (store_le_small 8 mem (base + 8 * 0) version bytes))))

  pub header_frame : (a : ℕ) → (a < base) ⊎ (base + 32 ≤ a) → header a ≡ mem a
  header_frame a h = rw header-plain (
      store_le_frame 8 _ (base + 8 * 3) e a (ground arith)
      ∙ store_le_frame 8 _ (base + 8 * 2) n a (ground arith)
      ∙ store_le_frame 8 _ (base + 8 * 1) s a (ground arith)
      ∙ store_le_frame 8 mem (base + 8 * 0) version a (ground arith))

  pub header_read :
      version < 2 ^ 64
      → s < 2 ^ 64
      → n < 2 ^ 64
      → e < 2 ^ 64
      → (load_le 8 header (base + 8 * 0) ≡ version)
        × (load_le 8 header (base + 8 * 1) ≡ s)
        × (load_le 8 header (base + 8 * 2) ≡ n)
        × (load_le 8 header (base + 8 * 3) ≡ e)
  header_read hv hs hn he = rw header-plain (
    beside 8 8 _ (base + 8 * 0) (base + 8 * 3) e (inl (omega arith))
        ∙ beside 8 8 _ (base + 8 * 0) (base + 8 * 2) n (inl (omega arith))
        ∙ beside 8 8 _ (base + 8 * 0) (base + 8 * 1) s (inl (omega arith))
        ∙ load_le-store_le 8 mem (base + 8 * 0) version hv,
    beside 8 8 _ (base + 8 * 1) (base + 8 * 3) e (inl (omega arith))
        ∙ beside 8 8 _ (base + 8 * 1) (base + 8 * 2) n (inl (omega arith))
        ∙ load_le-store_le 8 _ (base + 8 * 1) s hs,
    beside 8 8 _ (base + 8 * 2) (base + 8 * 3) e (inl (omega arith))
        ∙ load_le-store_le 8 _ (base + 8 * 2) n hn,
    load_le-store_le 8 _ (base + 8 * 3) e he,
  )

module _ (little : Bool) (mem : ℕ → ℕ) (version p : ℕ) (outs : ℕ → ℕ) (e : ℕ) where
  abbrev edged : ℕ → ℕ
  edged = write_edges little false mem version p outs e

  -- The destinations, by the width that the version gives them.
  pub edges_frame : (a : ℕ) → (a < p) ⊎ (p + sizeof_dst version * e ≤ a) → edged a ≡ mem a
  unfolding write_edges sizeof_dst
  edges_frame a h = elim (Bool-cases (version == 1)) [
    | inl v ↦
        let r = rw v at h in
        rw v (
          write_words_frame little 4 p _ outs (λ i q m. (stored_bytes little m q (outs i)).1) e 0
            mem a (ground arith))
    | inr v ↦
        let r = rw v at h in
        rw v (
          write_words_frame little 8 p _ outs (λ i q m. (stored_bytes little m q (outs i)).0) e 0
            mem a (ground arith))
  ]

  pub edges_read :
      (k : ℕ)
      → k < e
      → outs k < 256 ^ sizeof_dst version
      → load_le (sizeof_dst version) edged (p + sizeof_dst version * k) ≡ outs k
  unfolding write_edges sizeof_dst
  edges_read k h small = elim (Bool-cases (version == 1)) [
    | inl v ↦
        let r = rw v at small in
        rw v (
          write_words_read little 4 p _ outs (λ i q m. (stored_bytes little m q (outs i)).1) e 0 k
            mem (omega arith) (omega arith) r)
    | inr v ↦
        let r = rw v at small in
        rw v (
          write_words_read little 8 p _ outs (λ i q m. (stored_bytes little m q (outs i)).0) e 0 k
            mem (omega arith) (omega arith) r)
  ]

  pub edges_small : Bytes mem → Bytes edged
  unfolding write_edges
  edges_small bytes = elim (Bool-cases (version == 1)) [
    | inl v ↦ rw v (
        write_words_small little 4 p _ outs (λ i q m. (stored_bytes little m q (outs i)).1) e 0 mem
          bytes)
    | inr v ↦ rw v (
        write_words_small little 8 p _ outs (λ i q m. (stored_bytes little m q (outs i)).0) e 0 mem
          bytes)
  ]

-- The bytes that are copied for the edge data.
abbrev pub Copied : Option (ℕ → ℕ) → (length : ℕ) → (past a : ℕ) → Type 0
Copied none length past a = past ≤ a
Copied (some f) length past a = past + length ≤ a

-- The edge data are bytes.
abbrev pub DataBytes : Option (ℕ → ℕ) → Type 0
DataBytes none = 0 ≤ 0
DataBytes (some f) = (k : ℕ) → f k < 2 ^ 8

plain1 : (f : ℕ → ℕ) (i q : ℕ) (m : ℕ → ℕ) → host_store true 1 m q (f i) ≡ store_le 1 m q (f i)
unfolding host_store
plain1 f i q m = refl

pub data_frame :
    (mem : ℕ → ℕ) (p : ℕ) (d : Option (ℕ → ℕ)) (length a : ℕ)
    → (a < p) ⊎ Copied d length p a
    → write_data mem p d length a ≡ mem a
unfolding write_data
data_frame mem p none length a h = refl
data_frame mem p (some f) length a (inl h) =
    write_words_frame true 1 p f f (plain1 f) length 0 mem a (inl (omega arith))
data_frame mem p (some f) length a (inr h) =
    write_words_frame true 1 p f f (plain1 f) length 0 mem a (inr (omega arith))

pub data_small :
    (mem : ℕ → ℕ) (p : ℕ) (d : Option (ℕ → ℕ)) (length : ℕ)
    → Bytes mem
    → Bytes (write_data mem p d length)
unfolding write_data
data_small mem p none length bytes = bytes
data_small mem p (some f) length bytes =
    write_words_small true 1 p f f (plain1 f) length 0 mem bytes

pub data_read :
    (mem : ℕ → ℕ) (p : ℕ) (f : ℕ → ℕ) (length k : ℕ)
    → k < length
    → f k < 2 ^ 8
    → write_data mem p (some f) length (p + k) ≡ f k
unfolding write_data load_le
data_read mem p f length k h small =
    let r =
      write_words_read true 1 p f f (plain1 f) length 0 k mem (omega arith) (omega arith)
        (omega arith) in
    let e : p + 1 * k ≡ p + k = omega arith in omega (arith, rw e at r)
