-- ===== src/Worklist/Obim/Pop/Start.antt =====
-- Where the scan of libcoro/include/galois/worklists/Obim.h starts.
use corograph.Worklist.Obim.Push.{ThreadData}
use corograph.Worklist.Obim.Pop.{Pool, lower, least_scan, scan_from}
use corograph.Base.{
  ℕ, zero, suc, ◌+◌, ◌≤◌, ◌<◌, ◌≡◌, ◌⊎◌, false, inl, inr, ◌==◌, arith, Bool-cases, refl,
}

least_scan-le : (threads : ℕ → ThreadData) (left i ms : ℕ) → least_scan threads left i ms ≤ ms
unfolding least_scan
least_scan-le threads zero i ms = omega arith
least_scan-le threads (suc left) i ms =
    let r = least_scan-le threads left (suc i) (lower (threads i).scan_start ms) in ground arith

least_scan_all :
    (threads : ℕ → ThreadData) (left i ms k : ℕ)
    → i ≤ k
    → k < i + left
    → least_scan threads left i ms ≤ (threads k).scan_start
unfolding least_scan
least_scan_all threads zero i ms k h p = absurd (omega arith)
least_scan_all threads (suc left) i ms k h p = elim (Bool-cases (k == i)) [
  | inl e ↦
      let q : k ≡ i = ground arith in
      let r = least_scan-le threads left (suc i) (lower (threads i).scan_start ms) in
      rw q (ground arith)
  | inr e ↦
      least_scan_all threads left (suc i) (lower (threads i).scan_start ms) k (ground arith)
        (omega arith)
]

-- The scan of a thread starts no higher than at its own priority, and that of a leader no higher
-- than at that of any thread that runs.
pub scan_from-le :
    (pool : Pool) (threads : ℕ → ThreadData) (t : ℕ)
    → (scan_from pool threads t ≤ (threads t).scan_start)
      × ((pool.is_leader t ≡ false)
          ⊎ ((k : ℕ) → k < pool.active → scan_from pool threads t ≤ (threads k).scan_start))
unfolding scan_from
scan_from-le pool threads t = elim (Bool-cases (pool.is_leader t)) [
  | inl e ↦ rw e (
    least_scan-le threads pool.active 0 (threads t).scan_start,
    inr (λ k h.
        least_scan_all threads pool.active 0 (threads t).scan_start k (omega arith) (omega arith)),
  )
  | inr e ↦ rw e (ground arith, inl refl)
]
