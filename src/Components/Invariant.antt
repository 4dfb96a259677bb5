-- ===== src/Components/Invariant.antt =====
-- What holds at any time of `cc` of app/cc/crg-cc.cpp.
use mathlib.Core.List.{Memᴰ}
use corograph.Base.{ℕ, ◌<◌, ◌≤◌, ◌≡◌, false, [], ◌⊎◌}
use corograph.Partition.{Csr}
use corograph.Sssp.{max_num}
use corograph.Components.{State, lowered, copied, finished, targets}

-- The vertices that a vertex leads to.
pub data Walk (g : Csr) (src : ℕ) : ℕ → Type 0 where
  here : Walk g src src
  step : {u : ℕ} (v : ℕ) → Walk g src u → Memᴰ v (targets g u) → Walk g src v

-- Every edge leads to a vertex, and every vertex is below the first `comp_old`.
pub record IsGraph (g : Csr) : Type 0 where
  pub in_range : (u v : ℕ) → u < g.num_v → Memᴰ v (targets g u) → v < g.num_v
  pub fits : g.num_v ≤ max_num

-- A label is that of a vertex which leads there and not above the vertex. The destinations of a
-- vertex have a label up to the one that the vertex copied, or are to get it.
pub record Inv (g : Csr) (s : State) : Type 0 where
  pub small : (v : ℕ) → v < g.num_v → (s.label v).comp_current ≤ (s.label v).comp_old
  pub below : (v : ℕ) → (s.label v).comp_current ≤ v
  pub sound : (v : ℕ) → Walk g (s.label v).comp_current v
  pub spread_sound : (dst label_new : ℕ) → Memᴰ (dst, label_new) s.spread → Walk g label_new dst
  pub covered :
      (u v : ℕ)
      → u < g.num_v
      → Memᴰ v (targets g u)
      → ((s.label v).comp_current ≤ (s.label u).comp_old)
        ⊎ ((s.phase u ≡ copied)
            ⊎ (label_new : ℕ) × Memᴰ (v, label_new) s.spread × (label_new ≤ (s.label u).comp_old))
  pub falls : (v : ℕ) → s.phase v ≡ lowered → (s.label v).comp_current < (s.label v).comp_old
  pub unchanged :
      s.changed ≡ false
      → (s.spread ≡ [])
        × ((v : ℕ) → s.phase v ≡ finished → (s.label v).comp_old ≤ (s.label v).comp_current)
