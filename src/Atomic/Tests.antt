-- ===== src/Atomic/Tests.antt =====
-- Evaluation tests and a concrete instance for `atomicMin` of
-- libcoro/include/galois/AtomicHelpers.h.
use corograph.Base.{ℕ, ◌≡◌, ◌≤◌, ◌+◌, refl, true, ◌⊎◌}
use corograph.Atomic.{idle, returned, Cell, advance, atomic_min, start, steps}
use corograph.Atomic.Min.{atomic_min_least}

-- Every thread `t` wants `3 + t`, and the variable is 9.
abbrev wanted : ℕ → ℕ
wanted t = 3 + t

-- Thread 0 loads, thread 1 loads and exchanges, and the exchange of thread 0 fails once.
abbrev raced : Cell
raced = atomic_min wanted true 0 (
    atomic_min wanted true 0 (
      atomic_min wanted true 1 (
        atomic_min wanted true 1 (atomic_min wanted true 0 (record { a = 9; phase = λ t. idle })))))

raced-least : raced.a ≡ 3
unfolding atomic_min advance
raced-least = refl

raced-second : raced.phase 0 ≡ returned 4
unfolding atomic_min advance
raced-second = refl

atomic_min_least_example :
    (raced.a ≤ 9)
    × ((t old_a : ℕ) → raced.phase t ≡ returned old_a → raced.a ≤ 3 + t)
    × ((raced.a ≡ 9) ⊎ ((t : ℕ) × (raced.a ≡ 3 + t)))
atomic_min_least_example =
    atomic_min_least wanted 9 raced
      (steps 0 true (steps 0 true (steps 1 true (steps 1 true (steps 0 true start)))))
