-- ===== src/Components/Tests.antt =====
-- `cc` of app/cc/crg-cc.cpp on two vertices with an edge both ways.
use mathlib.Core.List.{Memᴰ}
use mathlib.Core.List.Memᴰ
use corograph.Base.{ℕ, zero, suc, ◌<◌, ◌≤◌, ◌≡◌, ◌↔◌, ◌⊎◌, refl, sym, subst, List, [], ◌∷◌, arith}
use corograph.Partition.{Csr}
use corograph.Components.{
  State, finished, targets, targets_from, round, init, test, copy, load, lower, Step, tested,
  copied_label, loaded, minimized, again, Reach, next, Done, Ended,
}
use corograph.Components.Invariant.{Walk, IsGraph}
use corograph.Components.Correct.{Symmetric, cc_components}
use corograph.Components.Terminates.{Ends, cc_terminates}

abbrev two : Csr
two = record {
  num_v = 2;
  num_e = 2;
  offset = 0 ∷ 1 ∷ 2 ∷ [];
  ngh = 1 ∷ 0 ∷ [];
  weight = 1 ∷ 1 ∷ [];
}

edges_of : (targets two 0 ≡ 1 ∷ []) × (targets two 1 ≡ 0 ∷ [])
unfolding targets targets_from
edges_of = (refl, refl)

two_in_range : (u v : ℕ) → u < 2 → Memᴰ v (targets two u) → v < 2
two_in_range zero v p m = let e = Memᴰ.eq_of_singleton (subst (Memᴰ v) edges_of.0 m) in omega arith
two_in_range (suc zero) v p m =
    let e = Memᴰ.eq_of_singleton (subst (Memᴰ v) edges_of.1 m) in omega arith
two_in_range (suc (suc u)) v p m = absurd (omega arith)

two-IsGraph : IsGraph two
two-IsGraph = record { in_range = two_in_range; fits = omega arith }

two-Symmetric : Symmetric two
two-Symmetric zero v p m =
    let e = Memᴰ.eq_of_singleton (subst (Memᴰ v) edges_of.0 m) in
    subst (λ w. Memᴰ 0 (targets two w)) (sym e) (subst (Memᴰ 0) (sym edges_of.1) (Memᴰ.head refl))
two-Symmetric (suc zero) v p m =
    let e = Memᴰ.eq_of_singleton (subst (Memᴰ v) edges_of.1 m) in
    subst (λ w. Memᴰ 1 (targets two w)) (sym e) (subst (Memᴰ 1) (sym edges_of.0) (Memᴰ.head refl))
two-Symmetric (suc (suc u)) v p m = absurd (omega arith)

abbrev call : ℕ × ℕ → List (ℕ × ℕ) → State → State
call c rest s = lower c (record s { spread = rest })

-- The threads test both vertices, and read the label of vertex 1 before that of vertex 0 reaches it.
abbrev first : State
first =
    call (0, 1) []
      (call (1, 0) ((0, 1) ∷ []) (load two 1 (copy 1 (load two 0 (copy 0 (test 1 (test 0 init)))))))

-- Vertex 1 has got the label of vertex 0.
abbrev second : State
second = call (0, 0) [] (load two 1 (copy 1 (test 1 (test 0 (round first.label)))))

abbrev last : State
last = test 1 (test 0 (round second.label))

first_reached : Reach two init first
unfolding targets targets_from test copy load lower
first_reached =
    next
      (next
        (next
          (next
            (next
              (next
                (next (next Reach.here (tested 0 (omega arith) refl)) (tested 1 (omega arith) refl))
                (copied_label 0 (omega arith) refl))
              (loaded 0 (omega arith) refl))
            (copied_label 1 (omega arith) refl))
          (loaded 1 (omega arith) refl))
        (minimized [] ((0, 1) ∷ []) (1, 0) refl))
      (minimized [] [] (0, 1) refl)

both :
    (s : State)
    → s.phase 0 ≡ finished
    → s.phase 1 ≡ finished
    → (v : ℕ) → v < 2
    → s.phase v ≡ finished
both s a b zero p = a
both s a b (suc zero) p = b
both s a b (suc (suc v)) p = absurd (omega arith)

first-Ended : Ended 2 first
unfolding targets targets_from test copy load lower
first-Ended = (refl, both first refl refl)

second_reached : Reach two init second
unfolding targets targets_from test copy load lower
second_reached =
    next
      (next
        (next
          (next (next (next first_reached (again first-Ended refl)) (tested 0 (omega arith) refl))
            (tested 1 (omega arith) refl))
          (copied_label 1 (omega arith) refl))
        (loaded 1 (omega arith) refl))
      (minimized [] [] (0, 0) refl)

second-Ended : Ended 2 second
unfolding targets targets_from test copy load lower
second-Ended = (refl, both second refl refl)

last_reached : Reach two init last
unfolding targets targets_from test copy load lower
last_reached =
    next (next (next second_reached (again second-Ended refl)) (tested 0 (omega arith) refl))
      (tested 1 (omega arith) refl)

last-Done : Done two last
unfolding targets targets_from test copy load lower
last-Done = ((refl, both last refl refl), refl)

cc_components_example :
    Walk two (last.label 1).comp_current 1
    × ((w : ℕ) → w < 2 → Walk two w 1 → (last.label 1).comp_current ≤ w)
    × (((last.label 0).comp_current ≡ (last.label 1).comp_current) ↔ Walk two 0 1)
cc_components_example =
    cc_components two two-IsGraph last_reached last-Done two-Symmetric 0 1 (omega arith)
      (omega arith)

cc_terminates_example : Ends two first × (Done two first ⊎ ((t : State) × Step two first t))
cc_terminates_example = cc_terminates two two-IsGraph first_reached
