-- ===== src/Worklist/LinkedQueue/Tests.antt =====
-- Evaluation tests and concrete instances for the queues of
-- libcoro/include/galois/worklists/WorkListHelpers.h.
use corograph.Base.{ℕ, ◌≡◌, refl, true, false, List, [], ◌∷◌, arith}
use corograph.Worklist.LinkedQueue.{Queue, init, push2, pop2, push, pop}
use corograph.Worklist.LinkedQueue.Segment.{Holds}
use corograph.Worklist.LinkedQueue.Refine.{init-Holds, push2-Holds, queue_refines, Front}
use corograph.Worklist.LinkedQueue.Owner.{System, enlist}

-- Links that nothing has cleared yet.
abbrev no_links : ℕ → ℕ
no_links node = 9

abbrev one_chunk : Queue
one_chunk = (push2 (init no_links) 5).0

one_chunk-Holds : Holds one_chunk (5 ∷ [])
one_chunk-Holds = push2-Holds (init no_links) [] 5 (init-Holds no_links) (ground arith) tt

push2-wakes : (push2 (init no_links) 5).1 ≡ true
unfolding init push2
push2-wakes = refl

push2-wakes_once : (push2 one_chunk 7).1 ≡ false
unfolding init push2
push2-wakes_once = refl

queue_refines_example :
    Holds (push one_chunk 7) (5 ∷ 7 ∷ [])
    × Holds (push2 one_chunk 7).0 (5 ∷ 7 ∷ [])
    × ((rest : List ℕ) × Holds (pop one_chunk).0 rest × Front (5 ∷ []) (pop one_chunk).1 rest)
    × ((rest : List ℕ) × Holds (pop2 one_chunk).0 rest × Front (5 ∷ []) (pop2 one_chunk).1 rest)
queue_refines_example =
    queue_refines one_chunk (5 ∷ []) 7 one_chunk-Holds (ground arith) (ground arith, tt)

abbrev waiting : System
waiting = enlist (enlist (record { queue = init no_links; tickets = 0 }) 5) 7
