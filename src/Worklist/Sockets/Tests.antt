-- ===== src/Worklist/Sockets/Tests.antt =====
-- Evaluation tests and a concrete instance for the scan of
-- libcoro/include/galois/worklists/Obim.h over the queues of all sockets.
use corograph.Base.{ℕ, ◌≡◌, refl, List, [], ◌∷◌}
use corograph.Worklist.LinkedQueue.{Queue, init, push, pop}
use corograph.Worklist.Sockets.{pop_part_by_id, pop_range, pop_part}

abbrev no_links : ℕ → ℕ
no_links node = 0

-- Three sockets, the first with the node 7.
abbrev sockets : List Queue
sockets = push (init no_links) 7 ∷ init no_links ∷ init no_links ∷ []

pop_part-around : (pop_part sockets 1).1 ≡ 7
unfolding pop_part pop_part_by_id pop_range init push pop
pop_part-around = refl
