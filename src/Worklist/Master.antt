-- ===== src/Worklist/Master.antt =====
-- `ChunkMaster` of libcoro/include/galois/worklists/Chunk.h, the bag of one priority: its chunks, the
-- queues of all sockets, and `cur` and `next` of each thread. `ptr` is the address that the allocator
-- answers with, and `socket` the queue that `getLocal` gives a thread.
pub mod Find
pub mod Fill
mod Tests
use corograph.Worklist.LinkedQueue.{Queue, init, push}
use corograph.Worklist.Chunk.{Ring, empty_ring, clear, emplace_back, store}
use corograph.Worklist.Sockets.{pop_part}
use corograph.Base.{ℕ, Bool, true, false, not, List, ◌==◌, if◌then◌else◌, get_or, set, update}

pub record Master {ℓ} (A : Type ℓ) : Type ℓ where
  pub chunk : ℕ → Ring A
  pub queues : List Queue
  pub cur : ℕ → ℕ
  pub next : ℕ → ℕ

-- A queue that is not there has no nodes.
abbrev pub queue_at : List Queue → ℕ → Queue
queue_at qs i = get_or qs i (init (λ a. 0))

-- `pushChunk`.
unfoldable pub push_chunk : List Queue → (socket c : ℕ) → List Queue
push_chunk qs socket c = set qs socket (push (queue_at qs socket) c)

-- `popChunk`, the scan over the queues of all sockets that starts with the thread's own.
unfoldable pub pop_chunk : List Queue → (t : ℕ) → List Queue × ℕ
pop_chunk = pop_part

module _ {ℓ} {A : Type ℓ} where
  -- `emplacei`, which is `push`. A chunk that the item fills goes to the queue of the socket.
  unfoldable pub emplacei :
      (chunk_size : ℕ) → Master A → (socket t : ℕ) → (val : A) → (ptr : ℕ) → Master A
  emplacei chunk_size m socket t val ptr =
      let next = m.next t in
      let (r, full) = emplace_back chunk_size (m.chunk next) val in
      let written = record m { chunk = store m.chunk next r } in
      if not (next == 0)
      then if not full
        then written
        else record written { queues = push_chunk m.queues socket next; next = update m.next t 0 }
      else record m {
        chunk = store m.chunk ptr (emplace_back chunk_size empty_ring val).0;
        next = update m.next t ptr;
      }

  -- `if (n.cur) delChunk(n.cur)`.
  unfoldable pub del_cur : Master A → (t : ℕ) → Master A
  del_cur m t =
      if not (m.cur t == 0)
      then record m { chunk = store m.chunk (m.cur t) (clear (m.chunk (m.cur t))) }
      else m

  -- `pop2`; the result 0 is the null pointer.
  unfoldable pub pop2 : Master A → (t : ℕ) → Master A × ℕ
  pop2 m t =
      let d = del_cur m t in
      let (qs, c) = pop_chunk m.queues t in
      if c == 0
      then (
        record d { queues = qs; cur = update m.cur t (m.next t); next = update m.next t 0 },
        m.next t,
      )
      else (record d { queues = qs; cur = update m.cur t c }, c)
