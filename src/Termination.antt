-- ===== src/Termination.antt =====
-- The ring of libcoro/include/galois/substrate/Termination.h, `LocalTerminationDetection`. A call of
-- `localTermination` is one step: only the thread that holds the token writes to another thread's
-- holder, and that other thread does not hold it.
pub mod Ring
pub mod History
pub mod Invariant
pub mod Track
pub mod Again
pub mod Step
pub mod Master
pub mod Quiet
pub mod Turn
pub mod Live
mod Tests
use corograph.Base.{
  ℕ, zero, suc, ◌≡◌, Bool, true, false, not, ◌||◌, ◌&&◌, ◌%◌, ◌<◌, List, [], ◌∷◌, ◌++◌, ◌==◌,
  if◌then◌else◌, update,
}

-- `TokenHolder`.
pub record TokenHolder : Type 0 where
  pub token_is_black : Bool
  pub has_token : Bool
  pub process_is_black : Bool
  pub last_was_white : Bool

-- `data`, `activeThreads` and `globalTerm`.
pub record Detection : Type 0 where
  pub holders : ℕ → TokenHolder
  pub active_threads : ℕ
  pub global_term : Bool

-- `init`, and `initializeThread` of every thread.
unfoldable pub initialize : ℕ → Detection
initialize a_threads = record {
  holders = λ id. record {
    token_is_black = false;
    has_token = id == 0;
    process_is_black = true;
    last_was_white = true;
  };
  active_threads = a_threads;
  global_term = false;
}

abbrev pub with_holder : Detection → ℕ → TokenHolder → Detection
with_holder s id th = record s { holders = update s.holders id th }

-- `propToken`.
abbrev pub prop_token : Detection → ℕ → Bool → Detection
prop_token s id is_black =
    let next = suc id % s.active_threads in
    with_holder s next (record (s.holders next) { token_is_black = is_black; has_token = true })

-- The end of `localTermination`: the token goes on.
unfoldable pub recirculate : Detection → ℕ → Detection
recirculate s id =
    let th = s.holders id in
    prop_token
      (with_holder s id
        (record th { token_is_black = false; has_token = false; process_is_black = false }))
      id (th.process_is_black || th.token_is_black)

-- `localTermination`, called by the thread `id`.
unfoldable pub local_termination : Detection → ℕ → Bool → Detection
local_termination s id work_happened =
    let old = s.holders id in
    let th = record old { process_is_black = old.process_is_black || work_happened } in
    let failed = th.token_is_black || th.process_is_black in
    let reset = record th { token_is_black = false; process_is_black = false } in
    if th.has_token
    then if id == 0
      then if th.last_was_white && not failed
        then record (with_holder s id reset) { global_term = true }
        else recirculate (with_holder s id (record reset { last_was_white = not failed })) id
      else recirculate (with_holder s id th) id
    else with_holder s id th

-- The calls of a run, oldest first: which thread called and whether it reported work. A thread calls
-- until `globalTermination` answers true.
pub data Run (n : ℕ) : Detection → List (ℕ × Bool) → Type 0 where
  start : Run n (initialize n) []
  call :
      {s : Detection} {h : List (ℕ × Bool)} (id : ℕ) (work_happened : Bool)
      → Run n s h
      → s.global_term ≡ false
      → id < n
      → Run n (local_termination s id work_happened) (h ++ (id, work_happened) ∷ [])
