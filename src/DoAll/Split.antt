-- ===== src/DoAll/Split.antt =====
-- `getWork` and `stealWork` of libcoro/include/galois/runtime/Executor_DoAll.h part a range in two.
use corograph.DoAll.{
  ThreadContext, has_work_weak, get_work, steal_work, steal_size, StealAmt, half, full,
}
use corograph.DoAll.Ranges.{within}
use corograph.DoAll.Invariant.{Sized}
use corograph.Base.{
  ℕ, ◌+◌, ◌-◌, ◌<◌, ◌≤◌, ◌≡◌, refl, inl, inr, false, none, some, ltb, lt→ltb, leb, arith,
  Bool-cases,
}

-- The range from `beg` to `end` is taken off the front of `c`, and `c'` is what is left.
abbrev pub Split : (c c' : ThreadContext) (beg end : ℕ) → Type 0
Split c c' beg end =
    Sized c'
    × (beg < end)
    × (c'.m_size + (end - beg) ≡ c.m_size)
    × ((x : ℕ)
        → within c'.shared_beg c'.shared_end x + within beg end x
          ≡ within c.shared_beg c.shared_end x)

parted :
    (beg mid end x : ℕ)
    → beg ≤ mid
    → mid ≤ end
    → within mid end x + within beg mid x ≡ within beg end x
parted beg mid end x h p = ground arith

whole : (beg end x : ℕ) → within end end x + within beg end x ≡ within beg end x
whole beg end x = ground arith

module _ (chunk_size : ℕ) (c : ThreadContext) where
  pub get_work-none : c.m_size ≡ 0 → get_work chunk_size c ≡ (c, none)
  unfolding get_work has_work_weak
  get_work-none e = let f : ltb 0 c.m_size ≡ false = ground arith in rw f refl

  pub steal_work-none :
      (amount : StealAmt) → c.m_size ≡ 0 → steal_work amount chunk_size c ≡ (c, none)
  unfolding steal_work has_work_weak
  steal_work-none amount e = let f : ltb 0 c.m_size ≡ false = ground arith in rw f refl

  module _ (some_chunk : 0 < chunk_size) (sized : Sized c) (some_work : 0 < c.m_size) where
    pub get_work-some :
        (c' : ThreadContext) × (beg : ℕ) × (end : ℕ) × (get_work chunk_size c
          ≡ (c', some (beg, end)))
        × Split c c' beg end
    unfolding get_work has_work_weak
    get_work-some =
        let f = lt→ltb 0 c.m_size some_work in
        let s = sized in
        elim (Bool-cases (leb c.m_size chunk_size)) [
          | inl e ↦ (
            record c { shared_beg = c.shared_end; m_size = 0 },
            c.shared_beg,
            c.shared_end,
            rw f (rw e refl),
            (
              (omega arith, omega arith),
              omega arith,
              omega arith,
              λ x. whole c.shared_beg c.shared_end x,
            ),
          )
          | inr e ↦ (
            record c { shared_beg = c.shared_beg + chunk_size; m_size = c.m_size - chunk_size },
            c.shared_beg,
            c.shared_beg + chunk_size,
            rw f (rw e refl),
            (
              (ground arith, ground arith),
              omega arith,
              ground arith,
              λ x.
                  parted c.shared_beg (c.shared_beg + chunk_size) c.shared_end x (omega arith)
                    (ground arith),
            ),
          )
        ]

    some_size : (amount : StealAmt) → 0 < steal_size amount chunk_size c.m_size
    some_size half = ground arith
    some_size full = some_work

    pub steal_work-some :
        (amount : StealAmt)
        → (c' : ThreadContext) × (beg : ℕ) × (end : ℕ) × (size : ℕ) × (steal_work amount chunk_size
              c
            ≡ (c', some (beg, end, size)))
          × (size ≡ end - beg)
          × Split c c' beg end
    unfolding steal_work has_work_weak
    steal_work-some amount =
        let f = lt→ltb 0 c.m_size some_work in
        let s = sized in
        let size = steal_size amount chunk_size c.m_size in
        let p = some_size amount in
        elim (Bool-cases (leb c.m_size size)) [
          | inl e ↦ (
            record c { shared_beg = c.shared_end; m_size = 0 },
            c.shared_beg,
            c.shared_end,
            c.m_size,
            rw f (rw e refl),
            s.1,
            (
              (omega arith, omega arith),
              omega arith,
              omega arith,
              λ x. whole c.shared_beg c.shared_end x,
            ),
          )
          | inr e ↦ (
            record c { shared_beg = c.shared_beg + size; m_size = c.m_size - size },
            c.shared_beg,
            c.shared_beg + size,
            size,
            rw f (rw e refl),
            omega arith,
            (
              (ground arith, ground arith),
              omega arith,
              ground arith,
              λ x.
                  parted c.shared_beg (c.shared_beg + size) c.shared_end x (omega arith)
                    (ground arith),
            ),
          )
        ]
