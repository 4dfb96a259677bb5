-- ===== src/Worklist/Chunk.antt =====
-- The chunks of libcoro/include/galois/FixedSizeRing.h (`FixedSizeRing2`) and the partition queue
-- `ChunkMaster2` of libcoro/include/galois/worklists/Chunk.h, as the thread that calls it sees it.
-- `ptr` is the address that the allocator answers with, an argument of each operation that may
-- call `mkChunk`.
pub mod Contents
pub mod Write
pub mod Fifo
mod Tests
use corograph.Base.{
  ℕ, zero, suc, ◌≡◌, Bool, true, false, not, List, [], ◌∷◌, ◌++◌, Option, none, some, ◌==◌,
  if◌then◌else◌, u32, get_elem?,
}
use corograph.Worklist.LinkedQueue.{Queue, init, push2, pop2}

-- `FixedSizeRing2`: `datac` are the constructed slots, in order.
pub record Ring {ℓ} (A : Type ℓ) : Type ℓ where
  pub datac : List A
  pub count : ℕ

abbrev pub empty_ring {ℓ} : {A : Type ℓ} → Ring A
empty_ring = record { datac = []; count = 0 }

-- `clear`.
abbrev pub clear {ℓ} : {A : Type ℓ} → Ring A → Ring A
clear r = record { datac = []; count = 0 }

-- `emplace_back`: the result says whether the chunk is full.
unfoldable pub emplace_back {ℓ} : {A : Type ℓ} → ℕ → Ring A → A → Ring A × Bool
emplace_back chunk_size r val =
    let count = u32 (suc r.count) in
    (record { datac = r.datac ++ val ∷ []; count = count }, count == chunk_size)

-- `extract_at`.
abbrev pub extract_at {ℓ} : {A : Type ℓ} → Ring A → ℕ → Option A
extract_at r x = get_elem? r.datac x

-- The chunks in memory, the queue of the partition, and `cur` and `next` of the calling thread.
pub record Master {ℓ} (A : Type ℓ) : Type ℓ where
  pub chunk : ℕ → Ring A
  pub q : Queue
  pub cur : ℕ
  pub next : ℕ

-- A write of one chunk.
abbrev pub store {ℓ} : {A : Type ℓ} → (ℕ → Ring A) → ℕ → Ring A → ℕ → Ring A
store chunk a r x = if x == a then r else chunk x

-- `pushChunk` of the open chunk, which is then no longer this thread's.
abbrev pub push_chunk {ℓ} : {A : Type ℓ} → Master A → Master A × Bool
push_chunk m = let (q, wake) = push2 m.q m.next in (record m { q = q; next = 0 }, wake)

-- `emplacei`, which is `push`. The result says whether the partition has to be put into `gatherQ`.
unfoldable pub emplacei {ℓ} : {A : Type ℓ} → ℕ → Master A → A → ℕ → Master A × Bool
emplacei chunk_size m val ptr =
    let (r, full) = emplace_back chunk_size (m.chunk m.next) val in
    let written = record m { chunk = store m.chunk m.next r } in
    if not (m.next == 0) then if not full then (written, false) else push_chunk written else (
      record m { chunk = store m.chunk ptr (emplace_back chunk_size empty_ring val).0; next = ptr },
      false,
    )

-- `pushNext`.
unfoldable pub push_next {ℓ} : {A : Type ℓ} → Master A → Master A × Bool
push_next m = if not (m.next == 0) then push_chunk m else (m, false)

-- `if (n.cur) delChunk(n.cur)`.
abbrev pub del_chunk {ℓ} : {A : Type ℓ} → Master A → Master A
del_chunk m = record m {
  chunk = if not (m.cur == 0) then store m.chunk m.cur (clear (m.chunk m.cur)) else m.chunk;
}

-- `pop`; the result 0 is the null pointer.
unfoldable pub pop {ℓ} : {A : Type ℓ} → Master A → Master A × ℕ
pop m =
    let d = del_chunk m in
    let (q, c) = pop2 m.q in
    if c == 0
    then (record d { q = q; cur = m.next; next = 0 }, m.next)
    else (record d { q = q; cur = c }, c)
