-- ===== src/Sssp/Invariant.antt =====
-- The invariant of the shortest path search (app/sssp/crg-sssp.cpp).
use mathlib.Core.List.{Memᴰ}
use mathlib.Core.List.Memᴰ
use corograph.Base.{
  ℕ, zero, suc, ◌+◌, ◌*◌, ◌<◌, ◌≤◌, ◌≡◌, sym, ap, ◌≢◌, subst, List, [], ◌∷◌, ◌++◌, map, ◌⊎◌, inl,
  inr, length, set, ltb, arith, Bool-cases, true, if◌then◌else◌,
}
use corograph.Partition.{at}
use corograph.Partition.Fill.Stored.{Pair}
use corograph.Executor.{Relaxation, with_dist}
use corograph.Sssp.{max_num, VertexWarp, State, filter_func, scatter}
use corograph.Sssp.Walk.{Walk, IsNetwork, mem_removed, mem_kept, mem_middle}

-- The vertices with a distance.
abbrev pub finite : List ℕ → ℕ
finite [] = 0
finite (d ∷ ds) = (if ltb d max_num then 1 else 0) + finite ds

pub finite-le : (ds : List ℕ) → finite ds ≤ length ds
finite-le [] = omega arith
finite-le (d ∷ ds) = ground (arith, finite-le ds)

-- A smaller distance for a vertex: it is a new one, or the vertex had one.
pub finite-set :
    (ds : List ℕ) (v d : ℕ)
    → d < at ds v
    → at ds v ≤ max_num
    → (finite ds ≤ finite (set ds v d))
      × ((at ds v ≡ max_num) → finite (set ds v d) ≡ suc (finite ds))
finite-set [] v d lt le = absurd (omega arith)
finite-set (x ∷ ds) zero d lt le = ground arith
finite-set (x ∷ ds) (suc v) d lt le = ground (arith, finite-set ds v d)

pub lt-length_of_at : (ds : List ℕ) (v d : ℕ) → d < at ds v → v < length ds
lt-length_of_at [] v d h = absurd (omega arith)
lt-length_of_at (x ∷ ds) zero d h = omega arith
lt-length_of_at (x ∷ ds) (suc v) d h = omega (arith, lt-length_of_at ds v d h)

module _ (edges : ℕ → List Pair) (num_v max_weight src : ℕ) where
  -- No distance exceeds `max_weight` times the number of the vertices that have one.
  abbrev pub bound : List ℕ → ℕ
  bound vdata = max_weight * finite vdata

  -- Distances and pending work are lengths of walks, and every edge out of a vertex with a distance
  -- is relaxed, or pending with that distance.
  pub record Inv (s : State) : Type 0 where
    pub size : length s.vdata ≡ num_v
    pub source_in : src < num_v
    pub source : at s.vdata src ≡ 0
    pub small : (v : ℕ) → at s.vdata v ≤ max_num
    pub sound :
        (v : ℕ)
        → v < num_v
        → at s.vdata v ≢ max_num
        → Walk edges src v (at s.vdata v) × (at s.vdata v ≤ bound s.vdata)
    pub items_sound :
        (item : VertexWarp)
        → Memᴰ item s.items
        → Walk edges src item.vid item.dist × (item.dist ≤ bound s.vdata)
    pub relaxations_sound :
        (r : Relaxation)
        → Memᴰ r s.relaxations
        → (u : ℕ) × Walk edges src u r.2 × Memᴰ (r.0, r.1) (edges u) × (r.2 ≤ bound s.vdata)
    pub covered :
        (u v w : ℕ)
        → u < num_v
        → at s.vdata u ≢ max_num
        → Memᴰ (v, w) (edges u)
        → (at s.vdata v ≤ at s.vdata u + w)
          ⊎ (Memᴰ (record { vid = u; dist = at s.vdata u }) s.items
              ⊎ Memᴰ (v, w, at s.vdata u) s.relaxations)

  module _ (net : IsNetwork edges num_v max_weight) (s : State) (h : Inv s) where
    module _ (before after : List VertexWarp) (item : VertexWarp)
        (taken : s.items ≡ before ++ item ∷ after) where
      abbrev rest : State
      rest = record s { items = before ++ after }

      rest_sound :
          (x : VertexWarp)
          → Memᴰ x (before ++ after)
          → Walk edges src x.vid x.dist × (x.dist ≤ bound s.vdata)
      rest_sound x m = h.items_sound x (subst (Memᴰ x) (sym taken) (mem_kept item before after m))

      taken_sound : Walk edges src item.vid item.dist × (item.dist ≤ bound s.vdata)
      taken_sound =
          h.items_sound item (subst (Memᴰ item) (sym taken) (mem_middle item before after))

      -- An outdated item has no edge to cover.
      scatter_outdated : filter_func s.vdata item.vid item.dist ≡ true → Inv rest
      unfolding filter_func
      scatter_outdated old = record {
        size = h.size;
        source_in = h.source_in;
        source = h.source;
        small = h.small;
        sound = h.sound;
        items_sound = rest_sound;
        relaxations_sound = h.relaxations_sound;
        covered = λ u v w lt fin edge. elim (h.covered u v w lt fin edge) [
          | inl relaxed ↦ inl relaxed
          | inr (inr pending) ↦ inr (inr pending)
          | inr (inl waiting) ↦ elim (mem_removed before after (subst (Memᴰ _) taken waiting)) [
            | inl same ↦ absurd (
                ground (
                  arith,
                  ap (λ (x : VertexWarp). x.vid) same,
                  ap (λ (x : VertexWarp). x.dist) same,
                ))
            | inr kept ↦ inr (inl kept)
          ]
        ];
      }

      scatter_fresh : Inv (record s {
        items = before ++ after;
        relaxations = s.relaxations ++ map (with_dist item.dist) (edges item.vid);
      })
      scatter_fresh = record {
        size = h.size;
        source_in = h.source_in;
        source = h.source;
        small = h.small;
        sound = h.sound;
        items_sound = rest_sound;
        relaxations_sound = λ r m. elim (Memᴰ.append_cases s.relaxations m) [
          | inl old ↦ h.relaxations_sound r old
          | inr new ↦
              let ((v, w), edge, same) = Memᴰ.of_map (with_dist item.dist) (edges item.vid) new in
              subst
                (λ (r : Relaxation).
                  (u : ℕ) × Walk edges src u r.2
                  × Memᴰ (r.0, r.1) (edges u)
                  × (r.2 ≤ bound s.vdata))
                same (item.vid, taken_sound.0, edge, taken_sound.1)
        ];
        covered = λ u v w lt fin edge. elim (h.covered u v w lt fin edge) [
          | inl relaxed ↦ inl relaxed
          | inr (inr pending) ↦
              inr (inr (Memᴰ.append_left (map (with_dist item.dist) (edges item.vid)) pending))
          | inr (inl waiting) ↦ elim (mem_removed before after (subst (Memᴰ _) taken waiting)) [
            | inl same ↦ inr (
                inr (
                  Memᴰ.append_right s.relaxations (
                    subst
                      (λ (x : VertexWarp).
                        Memᴰ (v, w, at s.vdata u) (map (with_dist x.dist) (edges x.vid)))
                      same (Memᴰ.map (with_dist (at s.vdata u)) edge))))
            | inr kept ↦ inr (inl kept)
          ]
        ];
      }

      pub scatter-Inv : Inv (scatter edges item rest)
      unfolding scatter
      scatter-Inv = elim (Bool-cases (filter_func s.vdata item.vid item.dist)) [
        | inl old ↦ rw old (scatter_outdated old)
        | inr fresh ↦ rw fresh scatter_fresh
      ]
