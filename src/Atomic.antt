-- ===== src/Atomic.antt =====
-- The compare-and-swap loop `atomicMin` of libcoro/include/galois/AtomicHelpers.h, run by any number
-- of threads on one variable. The value is an unsigned number.
pub mod Min
mod Tests
use corograph.Base.{
  ℕ, zero, suc, ◌≡◌, Bool, true, false, not, ◌&&◌, List, [], ◌∷◌, ◌==◌, if◌then◌else◌, ltb, update,
}

-- Where a thread is: before the first load, in the loop with `old_a`, or back with its result.
pub data Phase : Type 0 where
  idle : Phase
  looping : ℕ → Phase
  returned : ℕ → Phase

-- The variable, and where each thread is.
pub record Cell : Type 0 where
  pub a : ℕ
  pub phase : ℕ → Phase

-- The next step of a thread that wants `b`: the load, the test of the loop, or the test and the
-- exchange. `weak` says whether the exchange may succeed, for it can fail without reason.
unfoldable pub advance : Bool → ℕ → ℕ → Phase → ℕ × Phase
advance weak b a idle = (a, looping a)
advance weak b a (looping old_a) =
    if ltb b old_a
    then if (a == old_a) && weak then (b, returned old_a) else (a, looping a)
    else (a, returned old_a)
advance weak b a (returned old_a) = (a, returned old_a)

unfoldable pub atomic_min : (ℕ → ℕ) → Bool → ℕ → Cell → Cell
atomic_min b weak t s =
    let (a, phase) = advance weak (b t) s.a (s.phase t) in
    record { a = a; phase = update s.phase t phase }

-- The threads take steps in any order; `b t` is what the thread `t` wants.
pub data Run (b : ℕ → ℕ) (first : ℕ) : Cell → Type 0 where
  start : Run b first (record { a = first; phase = λ t. idle })
  steps : {s : Cell} (t : ℕ) (weak : Bool) → Run b first s → Run b first (atomic_min b weak t s)
