-- ===== src/Sssp/Tests.antt =====
-- The shortest path search of app/sssp/crg-sssp.cpp on three vertices.
use mathlib.Core.List.{Memᴰ}
use mathlib.Core.List.Memᴰ
use corograph.Base.{ℕ, zero, suc, ◌≡◌, ◌≤◌, ◌<◌, ◌⊎◌, refl, ap, List, [], ◌∷◌, arith}
use corograph.Partition.Fill.Stored.{Pair}
use corograph.Sssp.{
  max_num, VertexWarp, State, filter_func, gather_func, apply_weight, push_func, init, scatter,
  gather, Step, scattered, gathered, Reach,
}
use corograph.Sssp.Walk.{Walk, IsNetwork}
use corograph.Sssp.Correct.{sssp_sound}
use corograph.Sssp.Terminates.{sssp_terminates, Ends}

-- 0 → 1 with weight 4, 1 → 2 with weight 3, and nothing leads to 3.
abbrev path : ℕ → List Pair
path zero = (1, 4) ∷ []
path (suc zero) = (2, 3) ∷ []
path (suc (suc v)) = []

path_targets : (u v w : ℕ) → Memᴰ (v, w) (path u) → (v < 4) × (w ≤ 4)
path_targets zero v w m =
    let e = Memᴰ.eq_of_singleton m in
    omega (arith, ap (λ (p : Pair). p.0) e, ap (λ (p : Pair). p.1) e)
path_targets (suc zero) v w m =
    let e = Memᴰ.eq_of_singleton m in
    omega (arith, ap (λ (p : Pair). p.0) e, ap (λ (p : Pair). p.1) e)
path_targets (suc (suc u)) v w m = absurd (Memᴰ.not-nil m)

path-IsNetwork : IsNetwork path 4 4
path-IsNetwork = record {
  targets = λ u v w m. (path_targets u v w m).0;
  weights = λ u v w m. (path_targets u v w m).1;
  fits = omega arith;
}

abbrev finished : State
finished = record { vdata = 0 ∷ 4 ∷ 7 ∷ max_num ∷ []; items = []; relaxations = [] }

abbrev waiting : State
waiting = record {
  vdata = 0 ∷ 4 ∷ max_num ∷ max_num ∷ [];
  items = record { vid = 1; dist = 4 } ∷ [];
  relaxations = [];
}

abbrev item : ℕ → ℕ → VertexWarp
item v d = record { vid = v; dist = d }

waiting_reached : Reach path (init 4 0) waiting
unfolding init scatter gather filter_func gather_func apply_weight push_func
waiting_reached =
    Reach.next (Reach.next Reach.here (scattered [] [] (item 0 0) refl))
      (gathered [] [] (1, 4, 0) refl)

sssp_sound_example : Walk path 0 1 4
sssp_sound_example =
    sssp_sound path 4 4 0 waiting path-IsNetwork (omega arith) waiting_reached 1 (omega arith)
      (omega arith)

sssp_terminates_example :
    Ends path waiting
    × ((waiting.items ≡ []) × (waiting.relaxations ≡ []) ⊎ ((t : State) × Step path waiting t))
sssp_terminates_example = sssp_terminates path waiting
