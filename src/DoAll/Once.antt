-- ===== src/DoAll/Once.antt =====
-- The loop with stealing of libcoro/include/galois/runtime/Executor_DoAll.h runs its body once on
-- each element.
use corograph.DoAll.{Pool, returned, State, Reach, init_thread}
use corograph.DoAll.Ranges.{local_begin, local_end, within, ranges_cover, begin-le-end}
use corograph.DoAll.Invariant.{run_count, held, Fits, Inv}
use corograph.DoAll.Kept.{Reach-Inv}
use corograph.Base.{ℕ, ◌+◌, ◌^◌, ◌<◌, ◌≡◌, refl, ltb, if◌then◌else◌, arith}
use corograph.Base.Total.{total_same, total_zero}

-- A loop over the vertices, as the threads start it.
abbrev pub start : (num : ℕ) → Pool → State
start num pool =
    init_thread (local_begin num pool.active_threads) (local_end num pool.active_threads)

-- All threads are out of the loop.
abbrev pub AllReturned : Pool → State → Type 0
AllReturned pool s = (t : ℕ) → t < pool.active_threads → s.place t ≡ returned

module _ (chunk_size : ℕ) (pool : Pool) (num : ℕ) (some_chunk : 0 < chunk_size)
    (some_thread : 0 < pool.active_threads) (small : num + pool.active_threads < 2 ^ 32) where
  start-Inv : Inv pool.active_threads num (start num pool)
  start-Inv = record {
    sized = λ t h. (begin-le-end num pool.active_threads some_thread small t h, refl);
    fits = λ t h. tt;
    counted = λ x.
        let cover = ranges_cover num pool.active_threads some_thread small x in
        let same =
          total_same
            (λ t.
              within (local_begin num pool.active_threads t) (local_end num pool.active_threads t)
                x)
            (held (start num pool) x) pool.active_threads (λ u p. omega arith) in
        omega arith;
  }

  module _ {s : State} (reached : Reach chunk_size pool (start num pool) s) where
    pub reached-Inv : Inv pool.active_threads num s
    reached-Inv = Reach-Inv chunk_size pool num some_chunk start-Inv reached

    -- When all threads are out of the loop over the vertices, whatever their interleaving and whoever
    -- stole from whom, the body was run exactly once on each vertex and on nothing else, where chunks
    -- are not empty and the number of vertices and threads fits 32 bits.
    pub runs_once : AllReturned pool s → (x : ℕ) → run_count x s.runs ≡ (if ltb x num then 1 else 0)
    runs_once done x =
        let c = reached-Inv.counted x in
        let none_held =
          total_same (λ u. 0) (held s x) pool.active_threads
            (λ u p.
              let r = done u p in
              let f : Fits pool.active_threads returned (s.workers u) =
                rw r at (reached-Inv.fits u p) in
              let z = reached-Inv.sized u p in rw r (ground arith)) in
        let zero_held = total_zero pool.active_threads in ground arith
