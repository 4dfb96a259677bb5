-- ===== src/Divide/Units/Corner.antt =====
-- The corner cases of libcoro/src/GraphHelpers.cpp, and its assertions on the ranges.
use corograph.Divide.Units.{end_all, one_each, sane_from, range_sanity}
use corograph.Base.{
  ℕ, zero, suc, ◌+◌, ◌-◌, ◌^◌, ◌≤◌, ◌<◌, ◌≡◌, ◌∙◌, refl, subst, inl, inr, List, true, ◌==◌, u32,
  arith, get_or, set, length, length-set, get_or-set_self, get_or-set_ne, Bool-cases,
}

-- The ranges of the units start at the first node, end behind the last one and are in order.
pub record Tiling (units begin end : ℕ) (ranges : List ℕ) : Type 0 where
  pub first : get_or ranges 0 0 ≡ begin
  pub last : get_or ranges units 0 ≡ end
  pub ordered : (i : ℕ) → i < units → get_or ranges i 0 ≤ get_or ranges (suc i) 0

pub Tiling-to :
    {units begin a b : ℕ} {ranges : List ℕ}
    → a ≡ b
    → Tiling units begin a ranges
    → Tiling units begin b ranges
Tiling-to {units} {begin} {a} {b} {ranges} e t = subst (λ x. Tiling units begin x ranges) e t

length-end_all :
    (left i end : ℕ) (ranges : List ℕ) → length (end_all left i end ranges) ≡ length ranges
unfolding end_all
length-end_all zero i end ranges = refl
length-end_all (suc left) i end ranges =
    length-end_all left (suc i) end (set ranges (suc i) end) ∙ length-set ranges (suc i) end

pub end_all_before :
    (left i end j : ℕ) (ranges : List ℕ)
    → j ≤ i
    → get_or (end_all left i end ranges) j 0 ≡ get_or ranges j 0
unfolding end_all
end_all_before zero i end j ranges h = refl
end_all_before (suc left) i end j ranges h =
    end_all_before left (suc i) end j (set ranges (suc i) end) (omega arith)
    ∙ get_or-set_ne ranges (suc i) j end 0 (λ e. omega arith)

pub end_all_at :
    (left i end j : ℕ) (ranges : List ℕ)
    → i < j
    → j ≤ i + left
    → j < length ranges
    → get_or (end_all left i end ranges) j 0 ≡ end
unfolding end_all
end_all_at zero i end j ranges h p q = absurd (omega arith)
end_all_at (suc left) i end j ranges h p q = elim (Bool-cases (j == suc i)) [
  | inl e ↦
      let s : j ≡ suc i = ground arith in
      end_all_before left (suc i) end j (set ranges (suc i) end) (omega arith)
      ∙ rw s (get_or-set_self ranges (suc i) end 0 (omega arith))
  | inr e ↦
      let l = length-set ranges (suc i) end in
      end_all_at left (suc i) end j (set ranges (suc i) end) (ground arith) (omega arith)
        (omega arith)
]

pub length-one_each :
    (left i node : ℕ) (ranges : List ℕ) → length (one_each left i node ranges) ≡ length ranges
unfolding one_each
length-one_each zero i node ranges = refl
length-one_each (suc left) i node ranges =
    length-one_each left (suc i) (u32 (node + 1)) (set ranges (suc i) (u32 (node + 1)))
    ∙ length-set ranges (suc i) (u32 (node + 1))

pub one_each_before :
    (left i node j : ℕ) (ranges : List ℕ)
    → j ≤ i
    → get_or (one_each left i node ranges) j 0 ≡ get_or ranges j 0
unfolding one_each
one_each_before zero i node j ranges h = refl
one_each_before (suc left) i node j ranges h =
    one_each_before left (suc i) (u32 (node + 1)) j (set ranges (suc i) (u32 (node + 1)))
      (omega arith)
    ∙ get_or-set_ne ranges (suc i) j (u32 (node + 1)) 0 (λ e. omega arith)

pub one_each_at :
    (left i node j : ℕ) (ranges : List ℕ)
    → i < j
    → j ≤ i + left
    → j < length ranges
    → node + left < 2 ^ 32
    → get_or (one_each left i node ranges) j 0 ≡ node + (j - i)
unfolding one_each
one_each_at zero i node j ranges h p q s = absurd (omega arith)
one_each_at (suc left) i node j ranges h p q s =
    let u : u32 (node + 1) ≡ node + 1 = omega arith in
    elim (Bool-cases (j == suc i)) [
      | inl e ↦
          let t : j ≡ suc i = ground arith in
          let b =
            one_each_before left (suc i) (u32 (node + 1)) j (set ranges (suc i) (u32 (node + 1)))
              (omega arith) in
          let c : get_or (set ranges (suc i) (u32 (node + 1))) j 0 ≡ u32 (node + 1) =
            rw t (get_or-set_self ranges (suc i) (u32 (node + 1)) 0 (omega arith)) in
          omega arith
      | inr e ↦
          let l = length-set ranges (suc i) (u32 (node + 1)) in
          let r =
            one_each_at left (suc i) (u32 (node + 1)) j (set ranges (suc i) (u32 (node + 1)))
              (ground arith) (omega arith) (omega arith) (omega arith) in
          ground arith
    ]

-- An order of neighbours is an order of all.
Tiling-le :
    {units begin end : ℕ} {ranges : List ℕ}
    → Tiling units begin end ranges
    → (k i : ℕ) → i + k ≤ units
    → get_or ranges i 0 ≤ get_or ranges (i + k) 0
Tiling-le {units} {begin} {end} {ranges} t zero i h =
    let e : i + 0 ≡ i = omega arith in rw e (omega arith)
Tiling-le {units} {begin} {end} {ranges} t (suc k) i h =
    let e : i + suc k ≡ suc (i + k) = omega arith in
    let r = Tiling-le t k i (omega arith) in
    let s = t.ordered (i + k) (omega arith) in rw e (omega arith)

Tiling-within :
    {units begin end : ℕ} {ranges : List ℕ}
    → Tiling units begin end ranges
    → (i : ℕ) → i ≤ units
    → (begin ≤ get_or ranges i 0) × (get_or ranges i 0 ≤ end)
Tiling-within {units} {begin} {end} {ranges} t i h =
    let a = Tiling-le t i 0 (omega arith) in
    let b = Tiling-le t (units - i) i (omega arith) in
    let e : i + (units - i) ≡ units = omega arith in
    let f : 0 + i ≡ i = omega arith in
    let c = rw e at b in
    let d = rw f at a in let x = t.first in let y = t.last in (omega arith, omega arith)

sane_from-Tiling :
    {units begin end : ℕ} {ranges : List ℕ}
    → Tiling units begin end ranges
    → (left i : ℕ) → 0 < i
    → i + left ≤ units
    → sane_from left i begin end ranges ≡ true
unfolding sane_from
sane_from-Tiling t zero i p h = refl
sane_from-Tiling {units} {begin} {end} {ranges} t (suc left) i p h =
    let w = Tiling-within t i (omega arith) in
    let e : suc (i - 1) ≡ i = omega arith in
    let o = rw e at (t.ordered (i - 1) (omega arith)) in
    let r = sane_from-Tiling t left (suc i) (omega arith) (omega arith) in ground arith

-- The assertions hold of ranges that tile.
pub range_sanity-Tiling :
    {units begin end : ℕ} {ranges : List ℕ}
    → 0 < units
    → Tiling units begin end ranges
    → range_sanity units begin end ranges ≡ true
unfolding range_sanity
range_sanity-Tiling {units} {begin} {end} {ranges} h t =
    let r = sane_from-Tiling t (units - 1) 1 (omega arith) (omega arith) in
    let a = t.first in let b = t.last in ground arith
