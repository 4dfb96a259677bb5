-- ===== src/Worklist/Chunk/Tests.antt =====
-- Evaluation tests and a concrete instance for the partition queue of
-- libcoro/include/galois/worklists/Chunk.h.
use corograph.Base.{ℕ, ◌≡◌, refl, [], ◌∷◌, arith}
use corograph.Worklist.LinkedQueue.{init, push2, pop2}
use corograph.Worklist.LinkedQueue.Refine.{init-Holds}
use corograph.Worklist.Chunk.{Master, emplacei, push_next, pop, empty_ring, emplace_back}
use corograph.Worklist.Chunk.Contents.{Valid}
use corograph.Worklist.Chunk.Fifo.{Held, Popped, partition_fifo}

abbrev no_links : ℕ → ℕ
no_links node = 0

abbrev new_master : Master ℕ
new_master = record { chunk = λ x. empty_ring; q = init no_links; cur = 0; next = 0 }

-- Three items in chunks of two slots.
abbrev three_pushed : Master ℕ
three_pushed = (emplacei 2 (emplacei 2 (emplacei 2 new_master 10 1).0 20 1).0 30 2).0

three_pushed-open : three_pushed.next ≡ 2
unfolding emplacei init emplace_back
three_pushed-open = refl

three_pushed-pop : (pop (push_next three_pushed).0).1 ≡ 1
unfolding emplacei init pop push_next emplace_back push2 pop2
three_pushed-pop = refl

-- A queue without chunks, and an open chunk with one item and room for one more.
abbrev one_pushed : Master ℕ
one_pushed = record {
  chunk = λ x. record { datac = 10 ∷ []; count = 1 };
  q = init no_links;
  cur = 0;
  next = 1;
}

one_pushed-Valid : Valid 2 one_pushed []
one_pushed-Valid = record {
  holds = init-Holds no_links;
  rings = tt;
  next_fresh = λ ne. tt;
  next_ring = λ ne. record { counted = refl; filled = omega arith; bounded = omega arith };
  next_room = λ ne. omega arith;
  cur_fresh = λ ne. absurd (ne refl);
}

partition_fifo_example :
    Held 2 (10 ∷ 20 ∷ []) (emplacei 2 one_pushed 20 2).0
    × (Held 2 (10 ∷ []) (push_next one_pushed).0 × ((push_next one_pushed).0.next ≡ 0))
    × Popped 2 one_pushed [] (pop one_pushed)
partition_fifo_example =
    partition_fifo 2 one_pushed [] 20 2 (omega arith) (omega arith) one_pushed-Valid (ground arith)
      tt (ground arith)
