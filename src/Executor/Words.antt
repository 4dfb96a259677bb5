-- ===== src/Executor/Words.antt =====
-- The words that `partition` packs and `coro_scatter`, `coro_gather` unpack
-- (libcoro/include/galois/graphs/Partition_Graph.h, libcoro/include/galois/runtime/Executor_ForEach.h).
use corograph.Base.{
  ℕ, ◌+◌, ◌-◌, ◌*◌, ◌/◌, ◌%◌, ◌^◌, ◌<◌, ◌≡◌, ap, ◌∙◌, u32, shr, shl32, bit_and, bit_or, arith,
}
use corograph.Base.Bits.{bit_or_disjoint, bit_and_mask, bit_and_shift}
use corograph.Partition.{header, max_bit, dw_half, min_hfup}

module _ (n p : ℕ) (short : n < 2 ^ 14) (small : p < 2 ^ 16) where
  -- A header is the mark, twice the length of the run, and its partition.
  pub header_lem : header n p ≡ (2 ^ 15 + 2 * n) * 2 ^ 16 + p
  unfolding header
  header_lem =
      let len : shl32 (u32 (n * 2)) 16 ≡ 2 * n * 2 ^ 16 = omega arith in
      let mark : bit_or max_bit (2 * n * 2 ^ 16) ≡ (2 ^ 15 + 2 * n) * 2 ^ 16 =
        bit_or_disjoint 31 1 (2 * n * 2 ^ 16) (omega arith) ∙ omega arith in
      rw (len, mark) (bit_or_disjoint 16 (2 ^ 15 + 2 * n) p small)

  pub header_mark : shr (header n p) 31 ≡ 1
  header_mark = omega (arith, header_lem)

  pub header_part : bit_and (header n p) dw_half ≡ p
  header_part = bit_and_mask 16 (header n p) ∙ omega (arith, header_lem)

  pub header_length : shr (bit_and (header n p) min_hfup) 16 ≡ 2 * n
  header_length =
      let word = header n p in
      let masked : bit_and word min_hfup ≡ word / 2 ^ 16 % 2 ^ 15 * 2 ^ 16 =
        bit_and_shift 16 word (2 ^ 15 - 1)
        ∙ ap (λ t. t * 2 ^ 16) (bit_and_mask 15 (word / 2 ^ 16)) in
      omega (arith, masked, header_lem)

  -- The word that `coro_scatter` passes on, and the length that `coro_gather` reads from it.
  pub passed_on : bit_or max_bit (2 * n) ≡ 2 ^ 31 + 2 * n
  passed_on = bit_or_disjoint 31 1 (2 * n) (omega arith) ∙ omega arith

  pub passed_length : bit_and (2 ^ 31 + 2 * n) dw_half ≡ 2 * n
  passed_length = bit_and_mask 16 (2 ^ 31 + 2 * n) ∙ omega arith
