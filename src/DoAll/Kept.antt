-- ===== src/DoAll/Kept.antt =====
-- The steps of the loop with stealing of libcoro/include/galois/runtime/Executor_DoAll.h keep the
-- invariant.
use corograph.DoAll.{
  ThreadContext, Pool, has_work_weak, get_work, steal_work, assign_work, half, try_steal, Place,
  getting, running, searching, stealing, carrying, returned, State, goes, got, stole, act_at, act,
  acted, Reach, next,
}
use corograph.DoAll.Ranges.{within}
use corograph.DoAll.Invariant.{run_count, hand, held, Fits, Sized, Inv, try_steal-BelowAll}
use corograph.DoAll.Sums.{total_one, total_two}
use corograph.DoAll.Split.{Split, get_work-none, get_work-some, steal_work-none, steal_work-some}
use corograph.Base.{
  ℕ, suc, ◌+◌, ◌-◌, ◌<◌, ◌≤◌, ◌≡◌, refl, inl, inr, Bool, true, false, List, [], ◌∷◌, some, ltb,
  ltb→lt, ◌==◌, arith, Bool-cases, update,
}

module _ (chunk_size : ℕ) (pool : Pool) (num : ℕ) (some_chunk : 0 < chunk_size) where
  abbrev n : ℕ
  n = pool.active_threads

  -- One thread moves, and only its own range and place change.
  moved :
      (s s' : State) (t : ℕ)
      → t < n
      → Inv n num s
      → ((u : ℕ) → (u == t) ≡ false → (s'.workers u ≡ s.workers u) × (s'.place u ≡ s.place u))
      → Sized (s'.workers t)
      → Fits n (s'.place t) (s'.workers t)
      → ((x : ℕ) → held s' x t + run_count x s'.runs ≡ held s x t + run_count x s.runs)
      → Inv n num s'
  moved s s' t p h others sized fits same = record {
    sized = λ u q. elim (Bool-cases (u == t)) [
      | inl e ↦ let f : u ≡ t = ground arith in rw f sized
      | inr e ↦ rw ((others u e).0) (h.sized u q)
    ];
    fits = λ u q. elim (Bool-cases (u == t)) [
      | inl e ↦ let f : u ≡ t = ground arith in rw f fits
      | inr e ↦ rw ((others u e).0) (rw ((others u e).1) (h.fits u q))
    ];
    counted = λ x.
        let sum =
          total_one (λ c. within c.shared_beg c.shared_end x) (λ q. hand q x) n s s' t p others in
        let at_t = same x in let all = h.counted x in omega arith;
  }

  -- One thread goes to another place, with the same elements in its hands.
  goes-Inv :
      (s : State) (t : ℕ) (p : Place) (runs : List ℕ)
      → t < n
      → Inv n num s
      → Fits n p (s.workers t)
      → ((x : ℕ) → hand p x + run_count x runs ≡ hand (s.place t) x + run_count x s.runs)
      → Inv n num (goes t p (record s { runs = runs }))
  goes-Inv s t p runs q h fits same =
      let self : (t == t) ≡ true = ground arith in
      moved s (goes t p (record s { runs = runs })) t q h (λ u e. (refl, rw e refl)) (h.sized t q)
        (rw self fits) (λ x. let a = same x in rw self (omega arith))

  got-Inv :
      (s : State) (t : ℕ) (c : ThreadContext) (beg end : ℕ)
      → t < n
      → Inv n num s
      → ((x : ℕ) → hand (s.place t) x ≡ 0)
      → Split (s.workers t) c beg end
      → Inv n num (got chunk_size pool t (c, some (beg, end)) s)
  got-Inv s t c beg end q h empty split =
      let self : (t == t) ≡ true = ground arith in
      moved s (got chunk_size pool t (c, some (beg, end)) s) t q h (λ u e. (rw e refl, rw e refl))
        (rw self (split.0)) (rw self (let b = split.1 in omega arith))
        (λ x. let a = split.3 x in let b = empty x in rw self (omega arith))

  -- A range with work left belongs to a thread that is before `getWork` or in its own range.
  still_Fits : (p : Place) (c c' : ThreadContext) → Fits n p c → 0 < c.m_size → Fits n p c'
  still_Fits getting c c' f h = tt
  still_Fits (running beg end) c c' f h = f
  still_Fits (searching loops saw_work) c c' f h = absurd (omega (arith, f.0))
  still_Fits (stealing rich loops) c c' f h = absurd (omega (arith, f.0))
  still_Fits (carrying beg end size) c c' f h = absurd (omega (arith, f.0))
  still_Fits returned c c' f h = absurd (omega (arith, f))

  pub apart :
      (s : State) (t rich : ℕ)
      → (s.workers t).m_size ≡ 0
      → 0 < (s.workers rich).m_size
      → (t == rich) ≡ false
  apart s t rich poor work = elim (Bool-cases (t == rich)) [
    | inr e ↦ e
    | inl e ↦
        let f : t ≡ rich = ground arith in
        absurd (let g : (s.workers rich).m_size ≡ 0 = rw f at poor in omega arith)
  ]

  stole-Inv :
      (s : State) (t rich : ℕ) (loops : List (List ℕ)) (c : ThreadContext) (beg end size : ℕ)
      → t < n
      → rich < n
      → Inv n num s
      → (s.workers t).m_size ≡ 0
      → 0 < (s.workers rich).m_size
      → ((x : ℕ) → hand (s.place t) x ≡ 0)
      → size ≡ end - beg
      → Split (s.workers rich) c beg end
      → Inv n num (stole chunk_size pool t rich loops (c, some (beg, end, size)) s)
  stole-Inv s t rich loops c beg end size q r h poor work empty sized split =
      let s' = stole chunk_size pool t rich loops (c, some (beg, end, size)) s in
      let self : (t == t) ≡ true = ground arith in
      let other : (t == rich) ≡ false = apart s t rich poor work in
      record {
        sized = λ u p. elim (Bool-cases (u == rich)) [
          | inl e ↦ rw e (split.0)
          | inr e ↦ rw e (h.sized u p)
        ];
        fits = λ u p. elim (Bool-cases (u == t)) [
          | inl e ↦ let f : u ≡ t = ground arith in rw f (rw self (rw other (poor, sized, split.1)))
          | inr e ↦ rw e (elim (Bool-cases (u == rich)) [
            | inl d ↦
                let f : u ≡ rich = ground arith in
                rw d (still_Fits (s.place u) (s.workers u) c (h.fits u p) (rw f work))
            | inr d ↦ rw d (h.fits u p)
          ])
        ];
        counted = λ x.
            let sum =
              total_two (λ d. within d.shared_beg d.shared_end x) (λ p. hand p x) n s t rich c
                (carrying beg end size) q r other in
            let parts = split.3 x in
            let none_held = empty x in let all = h.counted x in omega arith;
      }

  got_work-Inv :
      (s : State) (t : ℕ)
      → t < n
      → s.place t ≡ getting
      → Inv n num s
      → Inv n num (got chunk_size pool t (get_work chunk_size (s.workers t)) s)
  got_work-Inv s t q e h =
      let empty : (x : ℕ) → hand (s.place t) x ≡ 0 = λ x. rw e refl in
      elim (Bool-cases (ltb 0 (s.workers t).m_size)) [
        | inl l ↦
            let (c, beg, end, found, split) =
              get_work-some chunk_size (s.workers t) some_chunk (h.sized t q) (ltb→lt 0 _ l) in
            rw found (got-Inv s t c beg end q h empty split)
        | inr l ↦
            let zero_left : (s.workers t).m_size ≡ 0 = ground arith in
            rw (get_work-none chunk_size (s.workers t) zero_left) (
              goes-Inv s t (searching (try_steal pool t) false) s.runs q h
                (zero_left, try_steal-BelowAll pool t (omega arith))
                (λ x. let z = empty x in omega arith))
      ]

  stole_work-Inv :
      (s : State) (t rich : ℕ) (loops : List (List ℕ))
      → t < n
      → s.place t ≡ stealing rich loops
      → Inv n num s
      → Inv n num
          (stole chunk_size pool t rich loops (steal_work half chunk_size (s.workers rich)) s)
  stole_work-Inv s t rich loops q e h =
      let empty : (x : ℕ) → hand (s.place t) x ≡ 0 = λ x. rw e refl in
      let at_t : Fits n (stealing rich loops) (s.workers t) = rw e at (h.fits t q) in
      elim (Bool-cases (ltb 0 (s.workers rich).m_size)) [
        | inl l ↦
            let (c, beg, end, size, found, sized, split) =
              steal_work-some chunk_size (s.workers rich) some_chunk (h.sized rich at_t.1)
                (ltb→lt 0 _ l) half in
            rw found (
              stole-Inv s t rich loops c beg end size q at_t.1 h at_t.0 (ltb→lt 0 _ l) empty sized
                split)
        | inr l ↦ rw (steal_work-none chunk_size (s.workers rich) half (ground arith)) (
            goes-Inv s t (searching loops true) s.runs q h (at_t.0, at_t.2)
              (λ x. let z = empty x in omega arith))
      ]

  act_at-Inv :
      (p : Place) (s : State) (t : ℕ) (locked : Bool)
      → t < n
      → s.place t ≡ p
      → Inv n num s
      → Inv n num (act_at chunk_size pool p t locked s)
  unfolding act_at
  act_at-Inv getting s t locked q e h = got_work-Inv s t q e h
  act_at-Inv (running beg end) s t locked q e h =
      let at_t : beg ≤ end = rw e at (h.fits t q) in
      elim (Bool-cases (beg == end)) [
        | inl d ↦ rw d (goes-Inv s t getting s.runs q h tt (λ x. rw e (ground arith)))
        | inr d ↦ rw d (
            goes-Inv s t (running (suc beg) end) (beg ∷ s.runs) q h (ground arith)
              (λ x. rw e (ground arith)))
      ]
  act_at-Inv (searching [] saw_work) s t locked q e h =
      let at_t : Fits n (searching [] saw_work) (s.workers t) = rw e at (h.fits t q) in
      goes-Inv s t returned s.runs q h at_t.0 (λ x. rw e refl)
  act_at-Inv (searching ([] ∷ loops) saw_work) s t locked q e h =
      let at_t : Fits n (searching ([] ∷ loops) saw_work) (s.workers t) = rw e at (h.fits t q) in
      elim (Bool-cases saw_work) [
        | inl d ↦ rw d (goes-Inv s t getting s.runs q h tt (λ x. rw e refl))
        | inr d ↦
            rw d
              (goes-Inv s t (searching loops false) s.runs q h (at_t.0, at_t.1.1) (λ x. rw e refl))
      ]
  act_at-Inv (searching ((rich ∷ others) ∷ loops) saw_work) s t locked q e h =
      let at_t : Fits n (searching ((rich ∷ others) ∷ loops) saw_work) (s.workers t) =
        rw e at (h.fits t q) in
      elim (Bool-cases (has_work_weak (s.workers rich))) [
        | inl d ↦ rw d (
            goes-Inv s t (stealing rich (others ∷ loops)) s.runs q h
              (at_t.0, at_t.1.0.0, (at_t.1.0.1, at_t.1.1)) (λ x. rw e refl))
        | inr d ↦ rw d (
            goes-Inv s t (searching (others ∷ loops) saw_work) s.runs q h
              (at_t.0, (at_t.1.0.1, at_t.1.1)) (λ x. rw e refl))
      ]
  act_at-Inv (stealing rich loops) s t true q e h = stole_work-Inv s t rich loops q e h
  act_at-Inv (stealing rich loops) s t false q e h =
      let at_t : Fits n (stealing rich loops) (s.workers t) = rw e at (h.fits t q) in
      goes-Inv s t (searching loops true) s.runs q h (at_t.0, at_t.2) (λ x. rw e refl)
  act_at-Inv (carrying beg end size) s t locked q e h =
      let at_t : Fits n (carrying beg end size) (s.workers t) = rw e at (h.fits t q) in
      let self : (t == t) ≡ true = ground arith in
      let own = h.sized t q in
      let empty = at_t.0 in
      let s' =
        goes t getting (record s { workers = update s.workers t (assign_work beg end size) }) in
      let carried = at_t.1 in
      let some_work = at_t.2 in
      moved s s' t q h (λ u e. (rw e refl, rw e refl)) (rw self (omega arith, carried)) (rw self tt)
        (λ x. rw self (rw e (ground arith)))
  act_at-Inv returned s t locked q e h = h

  pub act-Inv :
      (s : State) (t : ℕ) (locked : Bool)
      → t < n
      → Inv n num s
      → Inv n num (act chunk_size pool t locked s)
  act-Inv s t locked q h = act_at-Inv (s.place t) s t locked q refl h

  pub Reach-Inv : {s u : State} → Inv n num s → Reach chunk_size pool s u → Inv n num u
  Reach-Inv h Reach.here = h
  Reach-Inv h (next r (acted t locked q)) = act-Inv _ t locked q (Reach-Inv h r)
