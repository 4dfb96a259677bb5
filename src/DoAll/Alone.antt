-- ===== src/DoAll/Alone.antt =====
-- A thread of the loop with stealing of libcoro/include/galois/runtime/Executor_DoAll.h that runs
-- alone comes to the end of the loop: what its steps use up.
use corograph.DoAll.{
  ThreadContext, Pool, has_work_weak, get_work, steal_work, assign_work, half, try_steal, Place,
  getting, running, searching, stealing, carrying, returned, State, goes, got, stole, act_at,
}
use corograph.DoAll.Invariant.{Fits, Inv}
use corograph.DoAll.Split.{Split, get_work-none, get_work-some, steal_work-none, steal_work-some}
use corograph.DoAll.Sums.{amount, total_one, total_two}
use corograph.DoAll.Kept.{apart}
use corograph.Base.{
  ℕ, suc, ◌+◌, ◌-◌, ◌<◌, ◌≤◌, ◌≡◌, ◌∙◌, ◌⊎◌, refl, inl, inr, Bool, true, false, List, [], ◌∷◌, some,
  length, ltb, lt→ltb, ltb→lt, ◌==◌, if◌then◌else◌, arith, Bool-cases, update,
}
use corograph.Base.Total.{total}

abbrev left_of : Place → ℕ
left_of (running beg end) = end - beg
left_of (carrying beg end size) = end - beg
left_of getting = 0
left_of (searching loops saw_work) = 0
left_of (stealing rich loops) = 0
left_of returned = 0

-- The threads still to be looked at.
abbrev looks : List (List ℕ) → ℕ
looks [] = 0
looks (ts ∷ loops) = suc (length ts) + looks loops

abbrev looks_at : Place → ℕ
looks_at (searching loops saw_work) = looks loops
looks_at (running beg end) = 0
looks_at (carrying beg end size) = 0
looks_at getting = 0
looks_at (stealing rich loops) = 0
looks_at returned = 0

-- How far the thread is from the next run of the body, or from the end.
abbrev rank_at : Place → (sizes : ℕ → ℕ) → ℕ → ℕ
rank_at returned sizes t = 0
rank_at (running beg end) sizes t = if beg == end then 7 else 1
rank_at getting sizes t = if ltb 0 (sizes t) then 2 else 6
rank_at (carrying beg end size) sizes t = 3
rank_at (stealing rich loops) sizes t = if ltb 0 (sizes rich) then 4 else 9
rank_at (searching loops saw_work) sizes t = if saw_work then 8 else 5

module _ (chunk_size : ℕ) (pool : Pool) (num : ℕ) (some_chunk : 0 < chunk_size) (t : ℕ)
    (in_range : t < pool.active_threads) where
  abbrev n : ℕ
  n = pool.active_threads

  -- The elements that are still to be run.
  abbrev pub waiting : State → ℕ
  waiting s = total (amount (λ c. c.m_size) left_of n s) n

  abbrev sizes : State → ℕ → ℕ
  sizes s u = (s.workers u).m_size

  abbrev pub rank : State → ℕ
  rank s = rank_at (s.place t) (sizes s) t

  abbrev pub looks_left : State → ℕ
  looks_left s = looks_at (s.place t)

  abbrev pub Falls : State → State → Type 0
  Falls s s' =
      (waiting s' < waiting s)
      ⊎ ((waiting s' ≡ waiting s) × (rank s' < rank s)
          ⊎ (waiting s' ≡ waiting s) × (rank s' ≤ rank s) × (looks_left s' < looks_left s))

  self : (t == t) ≡ true
  self = ground arith

  ranked : (s s' : State) → waiting s' ≡ waiting s → rank s' < rank s → Falls s s'
  ranked s s' w r = inr (inl (w, r))

  goes_waiting :
      (s : State) (p : Place) (runs : List ℕ)
      → waiting (goes t p (record s { runs = runs })) + left_of (s.place t) ≡ waiting s + left_of p
  goes_waiting s p runs =
      let sum =
        total_one (λ c. c.m_size) left_of n s (goes t p (record s { runs = runs })) t in_range
          (λ u e. (refl, rw e refl)) in
      let at_t : left_of ((goes t p (record s { runs = runs })).place t) ≡ left_of p =
        rw self refl in
      omega arith

  -- A thread that goes from one place to another, with nothing in its hands at either.
  goes-Falls :
      (s : State) (from to : Place)
      → s.place t ≡ from
      → left_of to ≡ left_of from
      → rank_at to (sizes s) t < rank_at from (sizes s) t
      → Falls s (goes t to s)
  goes-Falls s from to e same less =
      let w = goes_waiting s to s.runs in
      let at_t : left_of (s.place t) ≡ left_of from = rw e refl in
      ranked s (goes t to s) (omega arith) (rw self (rw e less))

  got-Falls :
      (s : State) (c : ThreadContext) (beg end : ℕ)
      → s.place t ≡ getting
      → 0 < (s.workers t).m_size
      → Split (s.workers t) c beg end
      → Falls s (got chunk_size pool t (c, some (beg, end)) s)
  got-Falls s c beg end e work split =
      let s' = got chunk_size pool t (c, some (beg, end)) s in
      let sum =
        total_one (λ d. d.m_size) left_of n s s' t in_range (λ u d. (rw d refl, rw d refl)) in
      let before : left_of (s.place t) ≡ 0 = rw e refl in
      let after : amount (λ d. d.m_size) left_of n s' t ≡ c.m_size + (end - beg) = rw self refl in
      let some_range : (beg == end) ≡ false = let b = split.1 in ground arith in
      let some_work : ltb 0 (s.workers t).m_size ≡ true = lt→ltb 0 _ work in
      let parts = split.2 in
      let new : rank s' ≡ 1 = rw self (rw some_range refl) in
      let old : rank s ≡ 2 = rw e (rw some_work refl) in ranked s s' (omega arith) (omega arith)

  getting-Falls :
      (s : State)
      → Inv n num s
      → s.place t ≡ getting
      → Falls s (got chunk_size pool t (get_work chunk_size (s.workers t)) s)
  getting-Falls s h e = elim (Bool-cases (ltb 0 (s.workers t).m_size)) [
    | inl l ↦
        let (c, beg, end, found, split) =
          get_work-some chunk_size (s.workers t) some_chunk (h.sized t in_range) (ltb→lt 0 _ l) in
        rw found (got-Falls s c beg end e (ltb→lt 0 _ l) split)
    | inr l ↦
        let zero_left : (s.workers t).m_size ≡ 0 = ground arith in
        rw (get_work-none chunk_size (s.workers t) zero_left)
          (goes-Falls s getting (searching (try_steal pool t) false) e refl (rw l (omega arith)))
  ]

  stole-Falls :
      (s : State) (rich : ℕ) (loops : List (List ℕ)) (c : ThreadContext) (beg end size : ℕ)
      → s.place t ≡ stealing rich loops
      → rich < n
      → (s.workers t).m_size ≡ 0
      → 0 < (s.workers rich).m_size
      → Split (s.workers rich) c beg end
      → Falls s (stole chunk_size pool t rich loops (c, some (beg, end, size)) s)
  stole-Falls s rich loops c beg end size e r poor work split =
      let s' = stole chunk_size pool t rich loops (c, some (beg, end, size)) s in
      let sum =
        total_two (λ d. d.m_size) left_of n s t rich c (carrying beg end size) in_range r
          (apart chunk_size pool num some_chunk s t rich poor work) in
      let before : left_of (s.place t) ≡ 0 = rw e refl in
      let some_work : ltb 0 (s.workers rich).m_size ≡ true = lt→ltb 0 _ work in
      let parts = split.2 in
      let new : rank s' ≡ 3 = rw self refl in
      let old : rank s ≡ 4 = rw e (rw some_work refl) in ranked s s' (omega arith) (omega arith)

  stealing-Falls :
      (s : State) (rich : ℕ) (loops : List (List ℕ))
      → Inv n num s
      → s.place t ≡ stealing rich loops
      → Falls s (stole chunk_size pool t rich loops (steal_work half chunk_size (s.workers rich)) s)
  stealing-Falls s rich loops h e =
      let at_t : Fits n (stealing rich loops) (s.workers t) = rw e at (h.fits t in_range) in
      elim (Bool-cases (ltb 0 (s.workers rich).m_size)) [
        | inl l ↦
            let (c, beg, end, size, found, sized, split) =
              steal_work-some chunk_size (s.workers rich) some_chunk (h.sized rich at_t.1)
                (ltb→lt 0 _ l) half in
            rw found (stole-Falls s rich loops c beg end size e at_t.1 at_t.0 (ltb→lt 0 _ l) split)
        | inr l ↦
            rw (steal_work-none chunk_size (s.workers rich) half (ground arith)) (
              goes-Falls s (stealing rich loops) (searching loops true) e refl (rw l (omega arith)))
      ]

  carrying-Falls :
      (s : State) (beg end size : ℕ)
      → Inv n num s
      → s.place t ≡ carrying beg end size
      → Falls s (act_at chunk_size pool (carrying beg end size) t true s)
  unfolding act_at
  carrying-Falls s beg end size h e =
      let s' =
        goes t getting (record s { workers = update s.workers t (assign_work beg end size) }) in
      let at_t : Fits n (carrying beg end size) (s.workers t) = rw e at (h.fits t in_range) in
      let sum =
        total_one (λ d. d.m_size) left_of n s s' t in_range (λ u d. (rw d refl, rw d refl)) in
      let before : left_of (s.place t) ≡ end - beg = rw e refl in
      let after : amount (λ d. d.m_size) left_of n s' t ≡ size + 0 = rw self refl in
      let empty = at_t.0 in
      let sized = at_t.1 in
      let some_range = at_t.2 in
      let at_own : (s'.workers t).m_size ≡ size = rw self refl in
      let work : ltb 0 (sizes s' t) ≡ true = ground arith in
      let there : rank s' ≡ rank_at getting (sizes s') t = rw self refl in
      let new : rank s' ≡ 2 = there ∙ (rw work refl) in
      let old : rank s ≡ 3 = rw e refl in ranked s s' (omega arith) (omega arith)

  getting_low : (sizes : ℕ → ℕ) → (if ltb 0 (sizes t) then 2 else 6) < 7
  getting_low sizes = ground arith

  searching_low : (saw_work : Bool) → 0 < (if saw_work then 8 else 5)
  searching_low saw_work = ground arith

  stealing_low :
      (rich : ℕ) (loops : List (List ℕ)) (saw_work : Bool) (s : State)
      → has_work_weak (s.workers rich) ≡ true
      → rank_at (stealing rich loops) (sizes s) t < (if saw_work then 8 else 5)
  unfolding has_work_weak
  stealing_low rich loops saw_work s d = rw d (ground arith)

  -- One look less is left.
  looked :
      (s : State) (loops rest : List (List ℕ)) (saw_work : Bool)
      → s.place t ≡ searching loops saw_work
      → looks rest < looks loops
      → Falls s (goes t (searching rest saw_work) s)
  looked s loops rest saw_work e less =
      let w = goes_waiting s (searching rest saw_work) s.runs in
      let before : left_of (s.place t) ≡ 0 = rw e refl in
      inr (inr (omega arith, rw self (rw e (omega arith)), rw self (rw e less)))

  pub act_at-Falls :
      (p : Place) (s : State)
      → Inv n num s
      → s.place t ≡ p
      → (p ≡ returned) ⊎ Falls s (act_at chunk_size pool p t true s)
  unfolding act_at
  act_at-Falls returned s h e = inl refl
  act_at-Falls getting s h e = inr (getting-Falls s h e)
  act_at-Falls (stealing rich loops) s h e = inr (stealing-Falls s rich loops h e)
  act_at-Falls (carrying beg end size) s h e = inr (carrying-Falls s beg end size h e)
  act_at-Falls (running beg end) s h e = inr (elim (Bool-cases (beg == end)) [
    | inl d ↦
        rw d
          (goes-Falls s (running beg end) getting e (ground arith) (rw d (getting_low (sizes s))))
    | inr d ↦
        let at_t : beg ≤ end = rw e at (h.fits t in_range) in
        let w = goes_waiting s (running (suc beg) end) (beg ∷ s.runs) in
        let before : left_of (s.place t) ≡ end - beg = rw e refl in rw d (inl (ground arith))
  ])
  act_at-Falls (searching [] saw_work) s h e =
      inr (goes-Falls s (searching [] saw_work) returned e refl (searching_low saw_work))
  act_at-Falls (searching ([] ∷ loops) true) s h e =
      let at_t : Fits n (searching ([] ∷ loops) true) (s.workers t) = rw e at (h.fits t in_range) in
      inr (goes-Falls s (searching ([] ∷ loops) true) getting e refl (ground arith))
  act_at-Falls (searching ([] ∷ loops) false) s h e =
      inr (looked s ([] ∷ loops) loops false e (omega arith))
  act_at-Falls (searching ((rich ∷ others) ∷ loops) saw_work) s h e =
      inr (elim (Bool-cases (has_work_weak (s.workers rich))) [
        | inl d ↦ rw d (
            goes-Falls s (searching ((rich ∷ others) ∷ loops) saw_work)
              (stealing rich (others ∷ loops)) e refl
              (stealing_low rich (others ∷ loops) saw_work s d))
        | inr d ↦
            rw d (looked s ((rich ∷ others) ∷ loops) (others ∷ loops) saw_work e (omega arith))
      ])
