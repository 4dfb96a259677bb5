-- ===== src/DoAll/Finish.antt =====
-- The threads of the loop with stealing of libcoro/include/galois/runtime/Executor_DoAll.h can always
-- come to its end.
use corograph.DoAll.{
  ThreadContext, Pool, has_work_weak, get_work, steal_work, half, Place, getting, running,
  searching, stealing, carrying, returned, State, goes, got, stole, act_at, act, acted, Reach, here,
  next,
}
use corograph.DoAll.Invariant.{Inv}
use corograph.DoAll.Kept.{act-Inv, Reach-Inv}
use corograph.DoAll.Alone.{waiting, rank, looks_left, act_at-Falls}
use corograph.DoAll.Once.{start, AllReturned, reached-Inv}
use corograph.Base.{
  ℕ, zero, suc, ◌+◌, ◌^◌, ◌<◌, ◌≤◌, ◌≡◌, ◌∙◌, refl, inl, inr, List, [], ◌∷◌, Option, none, some,
  true, false, ◌==◌, arith, Bool-cases,
}

module _ (chunk_size : ℕ) (pool : Pool) where
  joined :
      {s u v : State}
      → Reach chunk_size pool s u
      → Reach chunk_size pool u v
      → Reach chunk_size pool s v
  joined p here = p
  joined p (next q st) = next (joined p q) st

  goes-frame :
      (s : State) (t u : ℕ) (p : Place) → (u == t) ≡ false → (goes t p s).place u ≡ s.place u
  goes-frame s t u p e = rw e refl

  got-frame :
      (s : State) (t u : ℕ) (r : ThreadContext × Option (ℕ × ℕ))
      → (u == t) ≡ false
      → (got chunk_size pool t r s).place u ≡ s.place u
  got-frame s t u (c, none) e = rw e refl
  got-frame s t u (c, some (beg, end)) e = rw e refl

  stole-frame :
      (s : State) (t u rich : ℕ) (loops : List (List ℕ)) (r : ThreadContext × Option (ℕ × ℕ × ℕ))
      → (u == t) ≡ false
      → (stole chunk_size pool t rich loops r s).place u ≡ s.place u
  stole-frame s t u rich loops (c, none) e = rw e refl
  stole-frame s t u rich loops (c, some (beg, end, size)) e = rw e refl

  -- A step of a thread leaves the places of the others.
  act_at-frame :
      (p : Place) (s : State) (t u : ℕ)
      → (u == t) ≡ false
      → (act_at chunk_size pool p t true s).place u ≡ s.place u
  unfolding act_at
  act_at-frame getting s t u e = got-frame s t u (get_work chunk_size (s.workers t)) e
  act_at-frame (running beg end) s t u e = elim (Bool-cases (beg == end)) [
    | inl d ↦ rw d (goes-frame s t u getting e)
    | inr d ↦ rw d (goes-frame s t u (running (suc beg) end) e)
  ]
  act_at-frame (searching [] saw_work) s t u e = goes-frame s t u returned e
  act_at-frame (searching ([] ∷ loops) true) s t u e = goes-frame s t u getting e
  act_at-frame (searching ([] ∷ loops) false) s t u e = goes-frame s t u (searching loops false) e
  act_at-frame (searching ((rich ∷ others) ∷ loops) saw_work) s t u e =
      elim (Bool-cases (has_work_weak (s.workers rich))) [
        | inl d ↦ rw d (goes-frame s t u (stealing rich (others ∷ loops)) e)
        | inr d ↦ rw d (goes-frame s t u (searching (others ∷ loops) saw_work) e)
      ]
  act_at-frame (stealing rich loops) s t u e =
      stole-frame s t u rich loops (steal_work half chunk_size (s.workers rich)) e
  act_at-frame (carrying beg end size) s t u e = goes-frame s t u getting e
  act_at-frame returned s t u e = refl

  module _ (num : ℕ) (some_chunk : 0 < chunk_size) where
    abbrev n : ℕ
    n = pool.active_threads

    -- One thread comes to the end, and the others stay where they are.
    abbrev Comes : ℕ → State → Type 0
    Comes t s =
        (u : State) × Reach chunk_size pool s u
        × (u.place t ≡ returned)
        × ((v : ℕ) → (v == t) ≡ false → u.place v ≡ s.place v)

    alone :
        (a b c : ℕ) (t : ℕ) (h : t < n) (s : State)
        → Inv n num s
        → waiting chunk_size pool num some_chunk t h s < a
        → rank chunk_size pool num some_chunk t h s < b
        → looks_left chunk_size pool num some_chunk t h s < c
        → Comes t s
    alone zero b c t h s inv ha hb hc = absurd (omega arith)
    alone (suc a) zero c t h s inv ha hb hc = absurd (omega arith)
    alone (suc a) (suc b) zero t h s inv ha hb hc = absurd (omega arith)
    alone (suc a) (suc b) (suc c) t h s inv ha hb hc =
        let s' = act chunk_size pool t true s in
        let inv' = act-Inv chunk_size pool num some_chunk s t true h inv in
        let on : Comes t s' → Comes t s = λ (u, r, e, f). (
          u,
          joined (next here (acted t true h)) r,
          e,
          λ v d. f v d ∙ act_at-frame (s.place t) s t v d,
        ) in
        elim (act_at-Falls chunk_size pool num some_chunk t h (s.place t) s inv refl) [
          | inl e ↦ (s, here, e, λ v d. refl)
          | inr (inl less) ↦ on (
              alone a (suc (rank chunk_size pool num some_chunk t h s'))
                (suc (looks_left chunk_size pool num some_chunk t h s')) t h s' inv' (omega arith)
                (omega arith) (omega arith))
          | inr (inr (inl (same, less))) ↦ on (
              alone (suc a) b (suc (looks_left chunk_size pool num some_chunk t h s')) t h s' inv'
                (omega arith) (omega arith) (omega arith))
          | inr (inr (inr (same, ranked, less))) ↦
              on (alone (suc a) (suc b) c t h s' inv' (omega arith) (omega arith) (omega arith))
        ]

    -- The threads below `k` come to the end, one after the other.
    all_below :
        (k : ℕ) (s : State)
        → k ≤ n
        → Inv n num s
        → (u : State) × Reach chunk_size pool s u × ((t : ℕ) → t < k → u.place t ≡ returned)
    all_below zero s h inv = (s, here, λ t p. absurd (omega arith))
    all_below (suc k) s h inv =
        let (u, r, all) = all_below k s (omega arith) inv in
        let inv' = Reach-Inv chunk_size pool num some_chunk inv r in
        let (v, q, last, same) =
          alone (suc (waiting chunk_size pool num some_chunk k h u))
            (suc (rank chunk_size pool num some_chunk k h u))
            (suc (looks_left chunk_size pool num some_chunk k h u)) k h u inv' (omega arith)
            (omega arith) (omega arith) in
        (
          v,
          joined r q,
          λ t p. elim (Bool-cases (t == k)) [
            | inl e ↦ let f : t ≡ k = ground arith in rw f last
            | inr e ↦ same t e ∙ all t (ground arith)
          ],
        )

-- From every state that the loop over the vertices reaches, the threads can all come to its end,
-- where chunks are not empty and the number of vertices and threads fits 32 bits.
pub can_return :
    (chunk_size : ℕ) (pool : Pool) (num : ℕ)
    → 0 < chunk_size
    → 0 < pool.active_threads
    → num + pool.active_threads < 2 ^ 32
    → {s : State} → Reach chunk_size pool (start num pool) s
    → (u : State) × Reach chunk_size pool s u × AllReturned pool u
can_return chunk_size pool num some_chunk some_thread small reached =
    all_below chunk_size pool num some_chunk pool.active_threads _ (omega arith)
      (reached-Inv chunk_size pool num some_chunk some_thread small reached)
