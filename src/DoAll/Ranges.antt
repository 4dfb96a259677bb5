-- ===== src/DoAll/Ranges.antt =====
-- The local ranges of the vertices that a thread starts with: `temp` of app/cc/crg-cc.cpp and
-- `LocalIteratorFeature` of libcoro/include/galois/graphs/Details.h.
use native.Mathlib.Nat.{lt-mul-div-succ, mul-le-mul_left, div-mul-le_self, div-le_self}
use corograph.Base.{
  ℕ, zero, suc, ◌+◌, ◌*◌, ◌/◌, ◌^◌, ◌<◌, ◌≤◌, ◌≡◌, ◌∙◌, ap, min, ltb, leb, ◌&&◌, if◌then◌else◌, u32,
  arith,
}
use corograph.Base.Total.{total}

-- `range`: what it passes to `setLocalRange`.
unfoldable pub range : (num tid all : ℕ) → ℕ × ℕ
range num tid all =
    let len = u32 (num / all + 1) in (u32 (len * tid), min num (u32 (len * (tid + 1))))

unfoldable pub local_begin : (num all tid : ℕ) → ℕ
local_begin num all tid = min (range num tid all).0 num

unfoldable pub local_end : (num all tid : ℕ) → ℕ
local_end num all tid = min (range num tid all).1 num

-- Whether an element is in a range, as a number.
abbrev pub within : (beg end x : ℕ) → ℕ
within beg end x = if leb beg x && ltb x end then 1 else 0

module _ (num all : ℕ) (some_thread : 0 < all) (small : num + all < 2 ^ 32) where
  abbrev bound : ℕ → ℕ
  bound tid = min ((num / all + 1) * tid) num

  len_fits :
      (tid : ℕ)
      → tid ≤ all
      → (u32 (num / all + 1) ≡ num / all + 1) × ((num / all + 1) * tid ≤ num + all)
  len_fits tid h =
      let a = mul-le-mul_left (num / all + 1) h in
      let b = div-mul-le_self num all in
      let c : num / all ≤ num = div-le_self num all in (omega arith, omega arith)

  pub begin_lem : (tid : ℕ) → tid ≤ all → local_begin num all tid ≡ bound tid
  unfolding local_begin range
  begin_lem tid h = let f = len_fits tid h in rw f.0 (let g = f.1 in omega arith)

  end_lem : (tid : ℕ) → tid < all → local_end num all tid ≡ bound (suc tid)
  unfolding local_end range
  end_lem tid h =
      let f = len_fits (suc tid) h in
      let e : tid + 1 ≡ suc tid = omega arith in rw f.0 (rw e (let g = f.1 in omega arith))

  pub begin-le-end : (tid : ℕ) → tid < all → local_begin num all tid ≤ local_end num all tid
  begin-le-end tid h =
      let rising : (num / all + 1) * tid ≤ (num / all + 1) * suc tid =
        mul-le-mul_left (num / all + 1) (omega arith) in
      rw (begin_lem tid (omega arith)) (rw (end_lem tid h) (omega arith))

  -- The ranges of the first threads cover the elements up to the next range, each once.
  covered :
      (n x : ℕ)
      → n ≤ all
      → total (λ t. within (local_begin num all t) (local_end num all t) x) n ≡ within 0 (bound n) x
  covered zero x h = ground arith
  covered (suc n) x h =
      let b = begin_lem n (omega arith) in
      let e = end_lem n h in
      let rest = covered n x (omega arith) in
      let rising : (num / all + 1) * n ≤ (num / all + 1) * suc n =
        mul-le-mul_left (num / all + 1) (omega arith) in
      rw b (rw e (ground arith))

  pub ranges_cover :
      (x : ℕ)
      → total (λ t. within (local_begin num all t) (local_end num all t) x) all ≡ within 0 num x
  ranges_cover x =
      let c = covered all x (omega arith) in
      let d = lt-mul-div-succ num some_thread in
      let e : bound all ≡ num = omega arith in c ∙ ap (λ b. within 0 b x) e
