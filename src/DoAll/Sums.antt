-- ===== src/DoAll/Sums.antt =====
-- Sums over the threads of the loop with stealing of libcoro/include/galois/runtime/Executor_DoAll.h.
use corograph.DoAll.{ThreadContext, Place, State}
use corograph.Base.{ℕ, ◌+◌, ◌<◌, ◌≡◌, refl, true, false, ◌==◌, arith, update}
use corograph.Base.Total.{total, total_changed}

module _ (value : ThreadContext → ℕ) (in_hand : Place → ℕ) (n : ℕ) where
  -- What a thread has, in its context and in its hands.
  abbrev pub amount : State → ℕ → ℕ
  amount s u = value (s.workers u) + in_hand (s.place u)

  pub total_one :
      (s s' : State) (t : ℕ)
      → t < n
      → ((u : ℕ) → (u == t) ≡ false → (s'.workers u ≡ s.workers u) × (s'.place u ≡ s.place u))
      → total (amount s') n + amount s t ≡ total (amount s) n + amount s' t
  total_one s s' t p others =
      total_changed (amount s) (amount s') n t p
        (λ u e. rw ((others u e).0) (rw ((others u e).1) refl))

  -- The context of one thread and the place of another change.
  pub total_two :
      (s : State) (t rich : ℕ) (c : ThreadContext) (p : Place)
      → t < n
      → rich < n
      → (t == rich) ≡ false
      → total
            (amount (record s { workers = update s.workers rich c; place = update s.place t p }))
            n
          + (value (s.workers rich) + in_hand (s.place t))
        ≡ total (amount s) n + (value c + in_hand p)
  total_two s t rich c p q r other =
      let self : (t == t) ≡ true = ground arith in
      let rich_self : (rich == rich) ≡ true = ground arith in
      let half_way : State = record s { workers = update s.workers rich c } in
      let s' : State = record s { workers = update s.workers rich c; place = update s.place t p } in
      let first = total_changed (amount s) (amount half_way) n rich r (λ u e. rw e refl) in
      let second = total_changed (amount half_way) (amount s') n t q (λ u e. rw e refl) in
      let a : amount half_way rich ≡ value c + in_hand (s.place rich) = rw rich_self refl in
      let b : amount half_way t ≡ value (s.workers t) + in_hand (s.place t) = rw other refl in
      let d : amount s' t ≡ value (s.workers t) + in_hand p = rw other (rw self refl) in omega arith
