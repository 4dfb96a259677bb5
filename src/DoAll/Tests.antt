-- ===== src/DoAll/Tests.antt =====
-- The loop with stealing of libcoro/include/galois/runtime/Executor_DoAll.h, with two threads and two
-- elements: both are in the range of thread 0, and thread 1 steals one.
use corograph.DoAll.{
  Pool, State, act, act_at, acted, Reach, here, next, has_work_weak, get_work, steal_work,
  within_loop, steal_within_socket, outside_loop, steal_outside_socket, try_steal,
}
use corograph.DoAll.Ranges.{range, local_begin, local_end}
use corograph.DoAll.Invariant.{run_count}
use corograph.DoAll.Once.{start, AllReturned, runs_once}
use corograph.DoAll.Finish.{can_return}
use corograph.Base.{
  ℕ, zero, suc, ◌<◌, ◌≡◌, refl, true, List, [], ◌∷◌, ltb, ◌==◌, if◌then◌else◌, arith,
}

abbrev two : Pool
two = record {
  active_threads = 2;
  max_threads = 2;
  max_sockets = 1;
  socket = λ t. 0;
  is_leader = λ t. t == 0;
}

-- The threads in the order in which they take their steps.
abbrev schedule : List ℕ → State → State
schedule [] s = s
schedule (t ∷ ts) s = act 1 two t true (schedule ts s)

abbrev AllActive : List ℕ → Type 0
AllActive [] = Unit
AllActive (t ∷ ts) = (t < 2) × AllActive ts

schedule_reached : (ts : List ℕ) (s : State) → AllActive ts → Reach 1 two s (schedule ts s)
schedule_reached [] s h = here
schedule_reached (t ∷ ts) s (p, h) = next (schedule_reached ts s h) (acted t true p)

-- Read from the right: thread 1 finds its range empty, steals element 0 and runs it, thread 0 runs
-- element 1, and both find nothing more.
abbrev turns : List ℕ
turns = 1 ∷ 1 ∷ 1 ∷ 1 ∷ 1 ∷ 0 ∷ 0 ∷ 0 ∷ 0 ∷ 0 ∷ 0 ∷ 0 ∷ 0 ∷ 0 ∷ 1 ∷ 1 ∷ 1 ∷ 1 ∷ 1 ∷ 1 ∷ 1 ∷ []

abbrev last : State
last = schedule turns (start 2 two)

turns-AllActive : AllActive turns
turns-AllActive = ground arith

ran : last.runs ≡ 1 ∷ 0 ∷ []
unfolding act_at has_work_weak get_work steal_work within_loop steal_within_socket outside_loop
    steal_outside_socket try_steal range local_begin local_end
ran = refl

last-AllReturned : AllReturned two last
unfolding act_at has_work_weak get_work steal_work within_loop steal_within_socket outside_loop
    steal_outside_socket try_steal range local_begin local_end
last-AllReturned zero h = refl
last-AllReturned (suc zero) h = refl
last-AllReturned (suc (suc t)) h = absurd (omega arith)

last_reached : Reach 1 two (start 2 two) last
last_reached = schedule_reached turns (start 2 two) turns-AllActive

runs_once_example : run_count 1 last.runs ≡ (if ltb 1 2 then 1 else 0)
runs_once_example =
    runs_once 1 two 2 (omega arith) (omega arith) (omega arith) last_reached last-AllReturned 1

can_return_example : (u : State) × Reach 1 two last u × AllReturned two u
can_return_example = can_return 1 two 2 (omega arith) (omega arith) (omega arith) last_reached
