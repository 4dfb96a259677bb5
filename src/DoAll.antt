-- ===== src/DoAll.antt =====
-- The parallel loop with stealing, `DoAllStealingExec` of libcoro/include/galois/runtime/
-- Executor_DoAll.h. An iterator is the number of its element. A step is what a thread does in one
-- hold of a lock, one run of the body, or one look at the `m_size` of another thread.
pub mod Ranges
pub mod Invariant
pub mod Split
pub mod Sums
pub mod Kept
pub mod Once
pub mod Alone
pub mod Finish
mod Tests
use corograph.Base.{
  ℕ, zero, suc, ◌+◌, ◌-◌, ◌*◌, ◌/◌, ◌%◌, ◌<◌, ◌≡◌, Bool, true, false, List, [], ◌∷◌, ◌++◌, Option,
  none, some, ltb, leb, ◌==◌, if◌then◌else◌, ◌&&◌, update,
}

pub record ThreadContext : Type 0 where
  pub shared_beg : ℕ
  pub shared_end : ℕ
  pub m_size : ℕ

pub data StealAmt : Type 0 where
  half : StealAmt
  full : StealAmt

unfoldable pub has_work_weak : ThreadContext → Bool
has_work_weak c = ltb 0 c.m_size

-- The range that a thread runs next, or nothing.
unfoldable pub get_work : (chunk_size : ℕ) → ThreadContext → ThreadContext × Option (ℕ × ℕ)
get_work chunk_size c =
    if has_work_weak c
    then (if leb c.m_size chunk_size
        then (record c { shared_beg = c.shared_end; m_size = 0 }, some (c.shared_beg, c.shared_end))
        else (
          record c { shared_beg = c.shared_beg + chunk_size; m_size = c.m_size - chunk_size },
          some (c.shared_beg, c.shared_beg + chunk_size),
        ))
    else (c, none)

abbrev pub steal_size : StealAmt → (chunk_size m_size : ℕ) → ℕ
steal_size half chunk_size m_size = if ltb chunk_size m_size then m_size / 2 else m_size
steal_size full chunk_size m_size = m_size

-- `stealWork` behind its `try_lock`: the range that is taken, with its size.
unfoldable pub steal_work :
    StealAmt → (chunk_size : ℕ) → ThreadContext → ThreadContext × Option (ℕ × ℕ × ℕ)
steal_work amount chunk_size c =
    let size = steal_size amount chunk_size c.m_size in
    if has_work_weak c
    then (if leb c.m_size size
        then (
          record c { shared_beg = c.shared_end; m_size = 0 },
          some (c.shared_beg, c.shared_end, c.m_size),
        )
        else (
          record c { shared_beg = c.shared_beg + size; m_size = c.m_size - size },
          some (c.shared_beg, c.shared_beg + size, size),
        ))
    else (c, none)

abbrev pub assign_work : (beg end size : ℕ) → ThreadContext
assign_work beg end size = record { shared_beg = beg; shared_end = end; m_size = size }

-- The threads of the pool, the active ones first, and the sockets of the machine.
pub record Pool : Type 0 where
  pub active_threads : ℕ
  pub max_threads : ℕ
  pub max_sockets : ℕ
  pub socket : ℕ → ℕ
  pub is_leader : ℕ → Bool

-- The threads that `stealWithinSocket` looks at, in its order.
unfoldable pub within_loop : (id per_pack pack_beg max_t left i : ℕ) → List ℕ
within_loop id per_pack pack_beg max_t zero i = []
within_loop id per_pack pack_beg max_t (suc left) i =
    let rest = within_loop id per_pack pack_beg max_t left (suc i) in
    let t = (id + i) % per_pack + pack_beg in if ltb t max_t then t ∷ rest else rest

unfoldable pub steal_within_socket : Pool → ℕ → List ℕ
steal_within_socket p id =
    let my_pack = p.socket id in
    let per_pack = p.max_threads / p.max_sockets in
    within_loop id per_pack (my_pack * per_pack) p.active_threads ((my_pack + 1) * per_pack - 1) 1

-- The threads that `stealOutsideSocket` looks at, in its order.
unfoldable pub outside_loop : Pool → (id left i : ℕ) → List ℕ
outside_loop p id zero i = []
outside_loop p id (suc left) i =
    let rest = outside_loop p id left (suc i) in
    let t = (id + i) % p.active_threads in if p.socket t == p.socket id then rest else t ∷ rest

unfoldable pub steal_outside_socket : Pool → ℕ → List ℕ
steal_outside_socket p id = outside_loop p id p.active_threads 0

-- `trySteal`: the loops that it runs until one has seen work.
unfoldable pub try_steal : Pool → ℕ → List (List ℕ)
try_steal p id =
    let outside = steal_outside_socket p id in
    let rest = if p.is_leader id then outside ∷ outside ∷ [] else outside ∷ [] in
    steal_within_socket p id ∷ rest

-- Where a thread is: before `getWork`, in the loop over its own range, in a loop over other threads
-- with those that come next and `sawWork`, before `stealWork`, before `assignWork`, or out of the
-- loop.
pub data Place : Type 0 where
  getting : Place
  running : (beg end : ℕ) → Place
  searching : (loops : List (List ℕ)) (saw_work : Bool) → Place
  stealing : (rich : ℕ) (loops : List (List ℕ)) → Place
  carrying : (beg end size : ℕ) → Place
  returned : Place

-- `runs` are the elements that the body was run on, the last one first.
pub record State : Type 0 where
  pub workers : ℕ → ThreadContext
  pub place : ℕ → Place
  pub runs : List ℕ

abbrev pub goes : ℕ → Place → State → State
goes t p s = record s { place = update s.place t p }

module _ (chunk_size : ℕ) (pool : Pool) where
  -- What a call of `getWork` leads to.
  abbrev pub got : ℕ → ThreadContext × Option (ℕ × ℕ) → State → State
  got t (c, some (beg, end)) s =
      goes t (running beg end) (record s { workers = update s.workers t c })
  got t (c, none) s = goes t (searching (try_steal pool t) false) s

  -- What a call of `stealWork` on `rich` leads to.
  abbrev pub stole :
      ℕ → (rich : ℕ) → List (List ℕ) → ThreadContext × Option (ℕ × ℕ × ℕ) → State → State
  stole t rich loops (c, some (beg, end, size)) s =
      goes t (carrying beg end size) (record s { workers = update s.workers rich c })
  stole t rich loops (c, none) s = goes t (searching loops true) s

  -- What thread `t` does next; `locked` says whether `try_lock` gets the lock.
  unfoldable pub act_at : Place → (t : ℕ) (locked : Bool) → State → State
  act_at getting t locked s = got t (get_work chunk_size (s.workers t)) s
  act_at (running beg end) t locked s =
      if beg == end
      then goes t getting s
      else goes t (running (suc beg) end) (record s { runs = beg ∷ s.runs })
  act_at (searching [] saw_work) t locked s = goes t returned s
  act_at (searching ([] ∷ loops) saw_work) t locked s =
      if saw_work then goes t getting s else goes t (searching loops false) s
  act_at (searching ((rich ∷ others) ∷ loops) saw_work) t locked s =
      if has_work_weak (s.workers rich)
      then goes t (stealing rich (others ∷ loops)) s
      else goes t (searching (others ∷ loops) saw_work) s
  act_at (stealing rich loops) t locked s =
      if locked
      then stole t rich loops (steal_work half chunk_size (s.workers rich)) s
      else goes t (searching loops true) s
  act_at (carrying beg end size) t locked s =
      goes t getting (record s { workers = update s.workers t (assign_work beg end size) })
  act_at returned t locked s = s

  abbrev pub act : (t : ℕ) (locked : Bool) → State → State
  act t locked s = act_at (s.place t) t locked s

  pub data Step (s : State) : State → Type 0 where
    acted : (t : ℕ) (locked : Bool) → t < pool.active_threads → Step s (act t locked s)

  pub data Reach (s : State) : State → Type 0 where
    here : Reach s s
    next : {t u : State} → Reach s t → Step t u → Reach s u

-- `initThread`: each thread has its local range.
abbrev pub init_thread : (local_begin local_end : ℕ → ℕ) → State
init_thread local_begin local_end = record {
  workers = λ t. record {
    shared_beg = local_begin t;
    shared_end = local_end t;
    m_size = local_end t - local_begin t;
  };
  place = λ t. getting;
  runs = [];
}
