-- ===== src/Components/Correct.antt =====
-- The labels with which `cc` of app/cc/crg-cc.cpp returns.
use mathlib.Core.List.{Memᴰ}
use mathlib.Core.List.Memᴰ
use corograph.Base.{ℕ, ◌<◌, ◌≤◌, ◌≡◌, ◌↔◌, sym, subst, inl, inr, arith}
use corograph.Partition.{Csr}
use corograph.Components.{State, targets, init, Reach, Done}
use corograph.Components.Invariant.{Walk, here, step, IsGraph}
use corograph.Components.Reached.{Reach-Inv}

-- Edges lead both ways.
abbrev pub Symmetric : Csr → Type 0
Symmetric g = (u v : ℕ) → u < g.num_v → Memᴰ v (targets g u) → Memᴰ u (targets g v)

module _ (g : Csr) (graph : IsGraph g) where
  Walk_in_range : {u v : ℕ} → u < g.num_v → Walk g u v → v < g.num_v
  Walk_in_range lt here = lt
  Walk_in_range lt (step v w edge) = graph.in_range _ v (Walk_in_range lt w) edge

  joined : {u v w : ℕ} → Walk g u v → Walk g v w → Walk g u w
  joined p here = p
  joined p (step w q edge) = step w (joined p q) edge

  back : Symmetric g → {u v : ℕ} → u < g.num_v → Walk g u v → Walk g v u
  back symmetric lt here = here
  back symmetric lt (step v w edge) =
      joined (step _ here (symmetric _ v (Walk_in_range lt w) edge)) (back symmetric lt w)

  module _ {s : State} (reached : Reach g init s) (done : Done g s) where
    -- No label is above that of a vertex which leads there.
    spread_over :
        {u v : ℕ} → u < g.num_v → Walk g u v → (s.label v).comp_current ≤ (s.label u).comp_current
    spread_over lt here = omega arith
    spread_over lt (step v w edge) =
        let h = Reach-Inv g graph reached in
        let in_range = Walk_in_range lt w in
        let so_far = spread_over lt w in
        let over = (h.unchanged done.1).1 _ (done.0.1 _ in_range) in
        elim (h.covered _ v in_range edge) [
          | inl met ↦ omega arith
          | inr (inl reading) ↦ absurd (ground (arith, done.0.1 _ in_range, reading))
          | inr (inr (l, m, le)) ↦ absurd (Memᴰ.not-nil (subst (Memᴰ (v, l)) (done.0.0) m))
        ]

    cc_labels :
        (v : ℕ)
        → v < g.num_v
        → Walk g (s.label v).comp_current v
          × ((u : ℕ) → u < g.num_v → Walk g u v → (s.label v).comp_current ≤ u)
    cc_labels v lt =
        let h = Reach-Inv g graph reached in
        (h.sound v, λ u p w. let b = h.below u in let o = spread_over p w in omega arith)

    -- When `cc` returns on a graph whose edges lead both ways, the label of a vertex is that of a
    -- vertex which leads to it, no vertex below that one does, and two vertices have the same label
    -- exactly if one leads to the other.
    pub cc_components :
        Symmetric g
        → (u v : ℕ) → u < g.num_v
        → v < g.num_v
        → Walk g (s.label v).comp_current v
          × ((w : ℕ) → w < g.num_v → Walk g w v → (s.label v).comp_current ≤ w)
          × (((s.label u).comp_current ≡ (s.label v).comp_current) ↔ Walk g u v)
    cc_components symmetric u v p q =
        let h = Reach-Inv g graph reached in
        let labels = cc_labels v q in
        (
          labels.0,
          labels.1,
          (
            λ same.
                let b = h.below u in
                joined (back symmetric (omega arith) (h.sound u))
                  (subst (λ c. Walk g c v) (sym same) (h.sound v)),
            λ w.
                let a = spread_over p w in
                let b = spread_over q (back symmetric p w) in omega arith,
          ),
        )
