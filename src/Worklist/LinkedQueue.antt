-- ===== src/Worklist/LinkedQueue.antt =====
-- The intrusive queues of libcoro/include/galois/worklists/WorkListHelpers.h,
-- `ConExtLinkedQueue2` and `ConExtLinkedQueue`. A node is an address, 0 is the null pointer, and
-- `next` is the link that each node carries. Both queues hold their lock over the whole of `push`
-- and `pop`, so an operation is one step.
pub mod Segment
pub mod Refine
pub mod Owner
mod Tests
use corograph.Base.{
  ℕ, zero, suc, ◌≡◌, Bool, true, false, not, List, [], ◌∷◌, ◌==◌, ◌%◌, ◌^◌, if◌then◌else◌,
}

-- `head.getValue()`, `tail`, the links of the nodes, and for `ConExtLinkedQueue2` also
-- `partitionState` and `numa_id`.
pub record Queue : Type 0 where
  pub head : ℕ
  pub tail : ℕ
  pub next : ℕ → ℕ
  pub state : Bool
  pub numa_id : ℕ

-- A write of one link.
abbrev pub link : (ℕ → ℕ) → ℕ → ℕ → ℕ → ℕ
link next a b x = if x == a then b else next x

-- The constructor; the links are what the nodes hold.
unfoldable pub init : (ℕ → ℕ) → Queue
init next = record { head = 0; tail = 0; next = next; state = false; numa_id = 1 }

-- `ConExtLinkedQueue2::push`. The result says whether the queue has to be put into `gatherQ`.
unfoldable pub push2 : Queue → ℕ → Queue × Bool
push2 q c =
    let cleared = link q.next c 0 in
    if not (q.tail == 0) then (record q { next = link cleared q.tail c; tail = c }, false) else (
      record q { next = cleared; tail = c; state = true; head = c },
      if not q.state then not (q.numa_id == 0) else false,
    )

-- `ConExtLinkedQueue2::setNuma`.
unfoldable pub set_numa : Queue → ℕ → Queue
set_numa q pop_id = record q { numa_id = suc pop_id % 2 ^ 64 }

-- `ConExtLinkedQueue2::pop`; the result 0 is the null pointer.
unfoldable pub pop2 : Queue → Queue × ℕ
pop2 q =
    let c = q.head in
    if c == 0
    then (record q { state = false }, 0)
    else if q.tail == c
    then (record q { tail = 0; head = 0 }, c)
    else (record q { head = q.next c; next = link q.next c 0 }, c)

-- `ConExtLinkedQueue::push`.
unfoldable pub push : Queue → ℕ → Queue
push q c =
    let cleared = link q.next c 0 in
    if not (q.tail == 0)
    then record q { next = link cleared q.tail c; tail = c }
    else record q { next = cleared; tail = c; head = c }

-- `ConExtLinkedQueue::pop`, with its test of `tail` before the lock.
unfoldable pub pop : Queue → Queue × ℕ
pop q =
    let c = q.head in
    if q.tail == 0
    then (q, 0)
    else if c == 0
    then (q, 0)
    else if q.tail == c
    then (record q { tail = 0; head = 0 }, c)
    else (record q { head = q.next c; next = link q.next c 0 }, c)
