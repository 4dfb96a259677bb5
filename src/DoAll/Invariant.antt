-- ===== src/DoAll/Invariant.antt =====
-- What holds at any time of the loop with stealing of libcoro/include/galois/runtime/Executor_DoAll.h:
-- each element is in one range, or was run.
use native.Mathlib.Nat.{mod-lt}
use corograph.DoAll.{
  ThreadContext, Pool, within_loop, steal_within_socket, outside_loop, steal_outside_socket,
  try_steal, Place, getting, running, searching, stealing, carrying, returned, State,
}
use corograph.DoAll.Ranges.{within}
use corograph.Base.{
  ℕ, zero, suc, ◌+◌, ◌-◌, ◌*◌, ◌/◌, ◌%◌, ◌<◌, ◌≤◌, ◌≡◌, inl, inr, List, [], ◌∷◌, ltb, ltb→lt, ◌==◌,
  if◌then◌else◌, Bool-cases,
}
use corograph.Base.Total.{total}

-- How often the body was run on an element.
abbrev pub run_count : ℕ → List ℕ → ℕ
run_count x [] = 0
run_count x (y ∷ ys) = (if x == y then 1 else 0) + run_count x ys

-- The elements in the hands of a thread.
abbrev pub hand : Place → ℕ → ℕ
hand (running beg end) x = within beg end x
hand (carrying beg end size) x = within beg end x
hand getting x = 0
hand (searching loops saw_work) x = 0
hand (stealing rich loops) x = 0
hand returned x = 0

abbrev pub held : State → ℕ → ℕ → ℕ
held s x t = within (s.workers t).shared_beg (s.workers t).shared_end x + hand (s.place t) x

abbrev pub Below : ℕ → List ℕ → Type 0
Below n [] = Unit
Below n (t ∷ ts) = (t < n) × Below n ts

abbrev pub BelowAll : ℕ → List (List ℕ) → Type 0
BelowAll n [] = Unit
BelowAll n (ts ∷ more) = Below n ts × BelowAll n more

-- A thread that is not in its own range has nothing left, until it is assigned what it stole.
abbrev pub Fits : ℕ → Place → ThreadContext → Type 0
Fits n getting c = Unit
Fits n (running beg end) c = beg ≤ end
Fits n (searching loops saw_work) c = (c.m_size ≡ 0) × BelowAll n loops
Fits n (stealing rich loops) c = (c.m_size ≡ 0) × (rich < n) × BelowAll n loops
Fits n (carrying beg end size) c = (c.m_size ≡ 0) × (size ≡ end - beg) × (beg < end)
Fits n returned c = c.m_size ≡ 0

abbrev pub Sized : ThreadContext → Type 0
Sized c = (c.shared_beg ≤ c.shared_end) × (c.m_size ≡ c.shared_end - c.shared_beg)

pub record Inv (n num : ℕ) (s : State) : Type 0 where
  pub sized : (t : ℕ) → t < n → Sized (s.workers t)
  pub fits : (t : ℕ) → t < n → Fits n (s.place t) (s.workers t)
  pub counted : (x : ℕ) → total (held s x) n + run_count x s.runs ≡ within 0 num x

module _ (p : Pool) where
  within_loop-Below :
      (id per_pack pack_beg left i : ℕ)
      → Below p.active_threads (within_loop id per_pack pack_beg p.active_threads left i)
  unfolding within_loop
  within_loop-Below id per_pack pack_beg zero i = tt
  within_loop-Below id per_pack pack_beg (suc left) i =
      let rest = within_loop-Below id per_pack pack_beg left (suc i) in
      let t = (id + i) % per_pack + pack_beg in
      elim (Bool-cases (ltb t p.active_threads)) [
        | inl e ↦ rw e (ltb→lt t p.active_threads e, rest)
        | inr e ↦ rw e rest
      ]

  outside_loop-Below :
      (id left i : ℕ) → 0 < p.active_threads → Below p.active_threads (outside_loop p id left i)
  unfolding outside_loop
  outside_loop-Below id zero i h = tt
  outside_loop-Below id (suc left) i h =
      let rest = outside_loop-Below id left (suc i) h in
      let t = (id + i) % p.active_threads in
      elim (Bool-cases (p.socket t == p.socket id)) [
        | inl e ↦ rw e rest
        | inr e ↦ rw e (mod-lt (id + i) h, rest)
      ]

  pub try_steal-BelowAll :
      (id : ℕ) → 0 < p.active_threads → BelowAll p.active_threads (try_steal p id)
  unfolding try_steal steal_within_socket steal_outside_socket
  try_steal-BelowAll id h =
      let inside =
        within_loop-Below id (p.max_threads / p.max_sockets)
          (p.socket id * (p.max_threads / p.max_sockets))
          ((p.socket id + 1) * (p.max_threads / p.max_sockets) - 1) 1 in
      let outside = outside_loop-Below id p.active_threads 0 h in
      elim (Bool-cases (p.is_leader id)) [
        | inl e ↦ rw e (inside, (outside, (outside, tt)))
        | inr e ↦ rw e (inside, (outside, tt))
      ]
