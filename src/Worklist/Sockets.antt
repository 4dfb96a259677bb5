-- ===== src/Worklist/Sockets.antt =====
-- The queues of all sockets: `popPart` of libcoro/include/galois/worklists/Obim.h, and `popChunk` of
-- `ChunkMaster` in libcoro/include/galois/worklists/Chunk.h, which is the same scan.
pub mod Scan
mod Tests
use corograph.Base.{
  ℕ, zero, suc, ◌+◌, ◌-◌, ◌≡◌, Bool, not, List, [], ◌∷◌, ◌==◌, if◌then◌else◌, length,
}
use corograph.Worklist.LinkedQueue.{Queue, pop}

-- `popPartByID`: `getRemote(i)` and its `pop`.
unfoldable pub pop_part_by_id : List Queue → ℕ → List Queue × ℕ
pop_part_by_id [] i = ([], 0)
pop_part_by_id (q ∷ qs) zero = let (rest, r) = pop q in (rest ∷ qs, r)
pop_part_by_id (q ∷ qs) (suc i) = let (rest, r) = pop_part_by_id qs i in (q ∷ rest, r)

-- `for (…; i < …; ++i) { r = popPartByID(i); if (r) return r; }` with `n` rounds left.
unfoldable pub pop_range : ℕ → List Queue → ℕ → List Queue × ℕ
pop_range zero qs i = (qs, 0)
pop_range (suc n) qs i =
    let (popped, r) = pop_part_by_id qs i in
    let later = pop_range n popped (suc i) in if not (r == 0) then (popped, r) else later

-- `popPart` of the thread `id`.
unfoldable pub pop_part : List Queue → ℕ → List Queue × ℕ
pop_part qs id =
    let (own, r) = pop_part_by_id qs id in
    let (above, r_above) = pop_range (length qs - suc id) own (suc id) in
    if not (r == 0)
    then (own, r)
    else if not (r_above == 0)
    then (above, r_above)
    else pop_range id above 0
