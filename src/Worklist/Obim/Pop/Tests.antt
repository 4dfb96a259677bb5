-- ===== src/Worklist/Obim/Pop/Tests.antt =====
-- A pop of libcoro/include/galois/worklists/Obim.h with two bags.
use corograph.Worklist.LinkedQueue.{init, push}
use corograph.Worklist.Master.{Master}
use corograph.Worklist.Master
use corograph.Worklist.Obim.{Bags, no_bags, update_local_or_create}
use corograph.Worklist.Obim.Pop.{Obim, Pool}
use corograph.Base.{ℕ, [], ◌∷◌, ◌==◌, if◌then◌else◌}

-- Priority 5 has the bag 50, and priority 3 the bag 30.
abbrev two_bags : Bags
two_bags = (update_local_or_create (update_local_or_create no_bags 0 5 50).0 1 3 30).0

-- Each bag has the chunk 7 in a queue.
abbrev filled : Master ℕ
filled = record {
  chunk = λ a. record { datac = []; count = 0 };
  queues = push (init (λ a. 0)) 7 ∷ init (λ a. 0) ∷ [];
  cur = λ t. 0;
  next = λ t. 0;
}

abbrev work : Obim (Master ℕ)
work = record {
  bags = two_bags;
  containers = λ bag. filled;
  threads = λ t. record { cur_index = 5; scan_start = if t == 0 then 3 else 5; current = 0 };
}

abbrev pool : Pool
pool = record { active = 2; is_leader = λ t. t == 0; leader = λ t. 0 }
