-- ===== src/Worklist/Master/Tests.antt =====
-- A bag of libcoro/include/galois/worklists/Chunk.h with the queues of two sockets.
use corograph.Worklist.LinkedQueue.{init, push, pop}
use corograph.Worklist.Sockets.{pop_part, pop_part_by_id, pop_range}
use corograph.Worklist.Master.{Master, pop2, pop_chunk}
use corograph.Base.{ℕ, ◌≡◌, refl, [], ◌∷◌}

-- Chunks have two slots. Thread 0 has the chunk 8 open, with one item; the chunk 7 is in queue 1.
abbrev bag : Master ℕ
bag = record {
  chunk = λ a. record { datac = 5 ∷ []; count = 1 };
  queues = init (λ a. 0) ∷ push (init (λ a. 0)) 7 ∷ [];
  cur = λ t. 0;
  next = λ t. 8;
}

taken_over : (pop2 bag 0).1 ≡ 7
unfolding pop2 pop_chunk pop_part pop_part_by_id pop_range init push pop
taken_over = refl
