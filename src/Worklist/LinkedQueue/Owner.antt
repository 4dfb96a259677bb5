-- ===== src/Worklist/LinkedQueue/Owner.antt =====
-- How `OBIM` of libcoro/include/galois/worklists/Obim.h and Obim2.h uses `ConExtLinkedQueue2`: a
-- partition whose `push` returns true is put into `gatherQ` (`scatter`, `sync`), the thread that
-- takes it from there (`pop_part`) keeps it until `pop` returns null (`pop_gather`), and only that
-- thread pops. `tickets` counts the entries of `gatherQ` and the threads that hold the partition.
use corograph.Base.{
  ℕ, suc, ◌≡◌, ◌≢◌, true, List, [], ◌∷◌, ◌++◌, ◌==◌, if◌then◌else◌, ◌-◌, ◌<◌, ◌^◌, arith,
}
use corograph.Worklist.LinkedQueue.{Queue, init, push2, pop2, set_numa}
use corograph.Worklist.LinkedQueue.Segment.{Fresh, Holds}

pub record System : Type 0 where
  pub queue : Queue
  pub tickets : ℕ

abbrev pub enlist : System → ℕ → System
enlist s c =
    let (q, wake) = push2 s.queue c in
    record { queue = q; tickets = if wake then suc s.tickets else s.tickets }

abbrev pub take_chunk : System → System
take_chunk s =
    let (q, c) = pop2 s.queue in
    record { queue = q; tickets = if c == 0 then s.tickets - 1 else s.tickets }

-- One step of some thread, between two lists of the nodes in the queue.
pub data Step : System → List ℕ → System → List ℕ → Type 0 where
  pushes :
      {s : System} {xs : List ℕ} (c : ℕ)
      → c ≢ 0
      → Fresh c xs
      → Step s xs (enlist s c) (xs ++ c ∷ [])
  drains : {s : System} → 0 < s.tickets → Step s [] (take_chunk s) []
  pops : {s : System} (x : ℕ) {xs : List ℕ} → 0 < s.tickets → Step s (x ∷ xs) (take_chunk s) xs
  moves :
      {s : System} {xs : List ℕ} (pop_id : ℕ)
      → suc pop_id < 2 ^ 64
      → Step s xs (record s { queue = set_numa s.queue pop_id }) xs

-- The runs from an empty queue.
pub data Run : System → List ℕ → Type 0 where
  start : (next : ℕ → ℕ) → Run (record { queue = init next; tickets = 0 }) []
  step :
      {s : System} {xs : List ℕ} {t : System} {ys : List ℕ} → Run s xs → Step s xs t ys → Run t ys

-- The invariant.
record Owned (s : System) (xs : List ℕ) : Type 0 where
  holds : Holds s.queue xs
  numa : s.queue.numa_id ≢ 0
  counted : s.tickets ≡ (if s.queue.state then 1 else 0)
  active : xs ≢ [] → s.queue.state ≡ true

append-ne_nil : (xs : List ℕ) (c : ℕ) → xs ++ c ∷ [] ≢ []
append-ne_nil [] c = ground arith
append-ne_nil (x ∷ xs) c = ground arith
