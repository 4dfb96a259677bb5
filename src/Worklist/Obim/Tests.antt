-- ===== src/Worklist/Obim/Tests.antt =====
-- Evaluation tests and a concrete instance for the bags of
-- libcoro/include/galois/worklists/Obim.h.
use corograph.Base.{ℕ, ◌≡◌, refl, [], ◌∷◌, some}
use corograph.FlatMap.{assign, index, lower_bound, find}
use corograph.FlatMap.Spec.{lookup}
use corograph.Worklist.Obim.{
  Bags, no_bags, replay, update_local, slow_update_local_or_create, update_local_or_create, start,
  asks,
}
use corograph.Worklist.Obim.Follow.{Asked}
use corograph.Worklist.Obim.Agree.{bag_agreed}
use corograph.Worklist.Obim.Push.{ThreadData, Current, Pushed, push, push_reaches}

-- Thread 0 asks for the priority 5, then thread 1 for 3.
abbrev two_bags : Bags
two_bags = (update_local_or_create (update_local_or_create no_bags 0 5 50).0 1 3 30).0

two_bags-log : two_bags.master_log ≡ (5, 50) ∷ (3, 30) ∷ []
unfolding no_bags update_local_or_create slow_update_local_or_create update_local replay find
    lower_bound assign index
two_bags-log = refl

-- Thread 0 does not make a second bag for 3.
two_bags-again : (update_local_or_create two_bags 0 3 99).1 ≡ 30
unfolding no_bags update_local_or_create slow_update_local_or_create update_local replay find
    lower_bound assign index
two_bags-again = refl

bag_agreed_example :
    ((j c d : ℕ)
      → lookup (two_bags.local 0) j ≡ some c
      → lookup (two_bags.local 1) j ≡ some d
      → some c ≡ some d)
    × Asked two_bags 0 3 (update_local_or_create two_bags 0 3 99)
bag_agreed_example = bag_agreed two_bags 0 1 3 99 (asks 1 3 30 (asks 0 5 50 start))

-- Thread 1 is at the priority 3.
abbrev at_three : ThreadData
at_three = record { cur_index = 3; scan_start = 3; current = 30 }

at_three-Current : Current two_bags 1 at_three
unfolding no_bags update_local_or_create slow_update_local_or_create update_local replay find
    lower_bound assign index
at_three-Current = record { together = refl; bag = λ _. refl }

push_reaches_example : Pushed 1 5 (push two_bags 1 at_three 5 99)
push_reaches_example =
    push_reaches two_bags 1 at_three 5 99 (asks 1 3 30 (asks 0 5 50 start)) at_three-Current
