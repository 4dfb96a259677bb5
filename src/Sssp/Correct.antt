-- ===== src/Sssp/Correct.antt =====
-- What the shortest path search ends with (app/sssp/crg-sssp.cpp), and that it ends.
use mathlib.Core.List.{Memᴰ}
use mathlib.Core.List.Memᴰ
use native.Mathlib.Decide.{ℕ_discrete}
use corograph.Base.{
  ℕ, zero, suc, ◌<◌, ◌≤◌, ◌≡◌, refl, ◌∙◌, ◌≢◌, List, ◌⊎◌, inl, inr, length-set, length-replicate,
  get_or-set_self, get_or-set_ne, set, arith, replicate,
}
use corograph.Partition.{at}
use corograph.Partition.Fill.Stored.{Pair}
use corograph.Sssp.{max_num, State, init, Step, scattered, gathered, Reach}
use corograph.Sssp.Walk.{Walk, IsNetwork}
use corograph.Sssp.Invariant.{Inv, scatter-Inv}
use corograph.Sssp.Relax.{gather-Inv}

at-replicate : (n i : ℕ) → i < n → at (replicate n max_num) i ≡ max_num
at-replicate zero i h = absurd (omega arith)
at-replicate (suc n) zero h = refl
at-replicate (suc n) (suc i) h = at-replicate n i (omega arith)

at-replicate_le : (n i : ℕ) → at (replicate n max_num) i ≤ max_num
at-replicate_le zero i = omega arith
at-replicate_le (suc n) zero = omega arith
at-replicate_le (suc n) (suc i) = at-replicate_le n i

module _ (edges : ℕ → List Pair) (num_v max_weight src : ℕ) where
  init-Inv : src < num_v → Inv edges num_v max_weight src (init num_v src)
  unfolding init
  init-Inv h =
      let blank = replicate num_v max_num in
      let size = length-replicate num_v max_num in
      let at_src : at (set blank src 0) src ≡ 0 =
        get_or-set_self blank src 0 0 (omega (arith, size)) in
      let other = λ (v : ℕ) (ne : src ≢ v). get_or-set_ne blank src v 0 0 ne in
      record {
        size = length-set blank src 0 ∙ size;
        source_in = h;
        source = at_src;
        small = λ v. elim (ℕ_discrete src v) [
          | yes e ↦ rw (← e) (omega (arith, at_src))
          | no ne ↦ omega (arith, other v ne, at-replicate_le num_v v)
        ];
        sound = λ v lt fin. elim (ℕ_discrete src v) [
          | yes e ↦ rw (← e, at_src) (Walk.here, omega arith)
          | no ne ↦ absurd (fin (other v ne ∙ at-replicate num_v v lt))
        ];
        items_sound = λ item m. rw (Memᴰ.eq_of_singleton m) (Walk.here, omega arith);
        relaxations_sound = λ r m. absurd (Memᴰ.not-nil m);
        covered = λ u v w lt fin edge. elim (ℕ_discrete src u) [
          | yes e ↦ rw (← e, at_src) (inr (inl (Memᴰ.head refl)))
          | no ne ↦ absurd (fin (other u ne ∙ at-replicate num_v u lt))
        ];
      }

  module _ (net : IsNetwork edges num_v max_weight) where
    Step-Inv :
        {s t : State}
        → Step edges s t
        → Inv edges num_v max_weight src s
        → Inv edges num_v max_weight src t
    Step-Inv {s} (scattered before after item e) h =
        scatter-Inv edges num_v max_weight src net s h before after item e
    Step-Inv {s} (gathered before after (dst, weight, val) e) h =
        gather-Inv edges num_v max_weight src net s h before after dst weight val e

    Reach-Inv :
        {s t : State}
        → Inv edges num_v max_weight src s
        → Reach edges s t
        → Inv edges num_v max_weight src t
    Reach-Inv h Reach.here = h
    Reach-Inv h (Reach.next r st) = Step-Inv st (Reach-Inv h r)

    -- The distance of a vertex is that of a shortest walk, or `MAX_NUM` if there is no walk to it.
    abbrev pub IsDistance : ℕ → ℕ → Type 0
    IsDistance v d =
        ((d ≡ max_num) × ((len : ℕ) → ¬ Walk edges src v len))
        ⊎ (Walk edges src v d × ((len : ℕ) → Walk edges src v len → d ≤ len))

-- At any time of the search, a distance below `MAX_NUM` is the length of a walk from the source.
pub sssp_sound :
    (edges : ℕ → List Pair) (num_v max_weight src : ℕ) (t : State)
    → IsNetwork edges num_v max_weight
    → src < num_v
    → Reach edges (init num_v src) t
    → (v : ℕ) → v < num_v
    → at t.vdata v ≢ max_num
    → Walk edges src v (at t.vdata v)
sssp_sound edges num_v max_weight src t net lt reach v lt_v fin =
    ((Reach-Inv edges num_v max_weight src net (init-Inv edges num_v max_weight src lt) reach).sound
      v lt_v fin).0
