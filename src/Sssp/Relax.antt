-- ===== src/Sssp/Relax.antt =====
-- Relaxing one edge keeps the invariant of the shortest path search (app/sssp/crg-sssp.cpp).
use mathlib.Core.List.{Memᴰ}
use mathlib.Core.List.Memᴰ
use native.Mathlib.Decide.{dec_lt, ℕ_discrete}
use corograph.Base.{
  ℕ, suc, ◌+◌, ◌*◌, ◌<◌, ◌≤◌, ◌≡◌, refl, sym, ◌∙◌, ◌≢◌, subst, List, [], ◌∷◌, ◌++◌, ◌⊎◌, inl, inr,
  length, length-set, get_or-set_self, get_or-set_ne, set, lt→ltb, le→ltb, arith,
}
use corograph.Partition.{at}
use corograph.Partition.Fill.Stored.{Pair}
use corograph.Executor.{Relaxation}
use corograph.Sssp.{max_num, State, gather_func, apply_weight, push_func, gather}
use corograph.Sssp.Walk.{Walk, step, IsNetwork, mem_removed, mem_kept, mem_middle}
use corograph.Sssp.Invariant.{Inv, bound, finite, finite-le, finite-set, lt-length_of_at}

module _ (edges : ℕ → List Pair) (num_v max_weight src : ℕ) where
  module _ (net : IsNetwork edges num_v max_weight) (s : State)
      (h : Inv edges num_v max_weight src s) (before after : List Relaxation) (dst weight val : ℕ)
      (taken : s.relaxations ≡ before ++ (dst, weight, val) ∷ after) where
    -- The distance over the edge, which does not wrap.
    abbrev update : ℕ
    update = val + weight

    origin :
        (u : ℕ) × Walk edges src u val
        × Memᴰ (dst, weight) (edges u)
        × (val ≤ bound edges num_v max_weight src s.vdata)
    origin =
        h.relaxations_sound (dst, weight, val)
          (subst (Memᴰ (dst, weight, val)) (sym taken) (mem_middle (dst, weight, val) before after))

    bound-le :
        (ds : List ℕ) → length ds ≡ num_v → max_weight * suc (finite ds) ≤ max_weight * suc num_v
    bound-le ds e = let le = finite-le ds in grind arith

    update_fits :
        (val + weight < max_num)
        × (val + weight ≤ bound edges num_v max_weight src s.vdata + max_weight)
    update_fits =
        let (u, walk, edge, le) = origin in
        omega (arith, le, net.weights u dst weight edge, bound-le s.vdata h.size, net.fits)

    apply_weight_lem : apply_weight weight val ≡ update
    unfolding apply_weight
    apply_weight_lem = omega (arith, update_fits.0)

    rest_sound :
        (r : Relaxation)
        → Memᴰ r (before ++ after)
        → (u : ℕ) × Walk edges src u r.2
          × Memᴰ (r.0, r.1) (edges u)
          × (r.2 ≤ bound edges num_v max_weight src s.vdata)
    rest_sound r m =
        h.relaxations_sound r
          (subst (Memᴰ r) (sym taken) (mem_kept (dst, weight, val) before after m))

    relaxed_by :
        (r : Relaxation)
        → r ≡ (dst, weight, val)
        → at s.vdata dst ≤ update
        → at s.vdata r.0 ≤ r.2 + r.1
    relaxed_by r same le = subst (λ (r : Relaxation). at s.vdata r.0 ≤ r.2 + r.1) (sym same) le

    gather_kept :
        at s.vdata dst ≤ update
        → Inv edges num_v max_weight src (record s { relaxations = before ++ after })
    gather_kept better = record {
      size = h.size;
      source_in = h.source_in;
      source = h.source;
      small = h.small;
      sound = h.sound;
      items_sound = h.items_sound;
      relaxations_sound = rest_sound;
      covered = λ u v w lt fin edge. elim (h.covered u v w lt fin edge) [
        | inl relaxed ↦ inl relaxed
        | inr (inl waiting) ↦ inr (inl waiting)
        | inr (inr pending) ↦ elim (mem_removed before after (subst (Memᴰ _) taken pending)) [
          | inl same ↦ inl (relaxed_by (v, w, at s.vdata u) same better)
          | inr kept ↦ inr (inr kept)
        ]
      ];
    }

    abbrev improved : State
    improved = record {
      vdata = set s.vdata dst update;
      items = s.items ++ record { vid = dst; dist = update } ∷ [];
      relaxations = before ++ after;
    }

    module _ (lt : update < at s.vdata dst) where
      grown :
          bound edges num_v max_weight src s.vdata
          ≤ bound edges num_v max_weight src (set s.vdata dst update)
      grown = let le = (finite-set s.vdata dst update lt (h.small dst)).0 in grind arith

      at_dst : at (set s.vdata dst update) dst ≡ update
      at_dst = get_or-set_self s.vdata dst update 0 (lt-length_of_at s.vdata dst update lt)

      at_other : (v : ℕ) → dst ≢ v → at (set s.vdata dst update) v ≡ at s.vdata v
      at_other v ne = get_or-set_ne s.vdata dst v update 0 ne

      smaller : (v : ℕ) → at (set s.vdata dst update) v ≤ at s.vdata v
      smaller v = elim (ℕ_discrete dst v) [
        | yes e ↦ rw (← e) (omega (arith, at_dst))
        | no ne ↦ omega (arith, at_other v ne)
      ]

      new-Walk : Walk edges src dst update
      new-Walk = let (u, walk, edge, le) = origin in step dst weight walk edge

      new_bound : update ≤ bound edges num_v max_weight src (set s.vdata dst update)
      new_bound = elim (ℕ_discrete (at s.vdata dst) max_num) [
        | yes first ↦
            let one = (finite-set s.vdata dst update lt (h.small dst)).1 first in
            rw one (omega (arith, update_fits.1))
        | no old ↦
            let le = (h.sound dst (rw (← h.size) (lt-length_of_at s.vdata dst update lt)) old).1 in
            omega (arith, grown)
      ]

      improved_sound :
          (v : ℕ)
          → v < num_v
          → at improved.vdata v ≢ max_num
          → Walk edges src v (at improved.vdata v)
            × (at improved.vdata v ≤ bound edges num_v max_weight src improved.vdata)
      improved_sound v lt_v fin = elim (ℕ_discrete dst v) [
        | yes e ↦
            let here_v : at improved.vdata v ≡ update = rw (← e) at_dst in
            rw here_v (subst (λ x. Walk edges src x update) e new-Walk, new_bound)
        | no ne ↦
            let same = at_other v ne in
            let (walk, le) = h.sound v lt_v (rw (← same) fin) in
            rw same (walk, omega (arith, grown))
      ]

      improved_covered :
          (u v w : ℕ)
          → u < num_v
          → at improved.vdata u ≢ max_num
          → Memᴰ (v, w) (edges u)
          → (at improved.vdata v ≤ at improved.vdata u + w)
            ⊎ (Memᴰ (record { vid = u; dist = at improved.vdata u }) improved.items
                ⊎ Memᴰ (v, w, at improved.vdata u) improved.relaxations)
      improved_covered u v w lt_u fin edge = elim (ℕ_discrete dst u) [
        | yes e ↦
            let here_u : at improved.vdata u ≡ update = rw (← e) at_dst in
            rw (here_u, ← e) (inr (inl (Memᴰ.append_right s.items (Memᴰ.head refl))))
        | no ne ↦
            let same = at_other u ne in
            rw same (elim (h.covered u v w lt_u (rw (← same) fin) edge) [
              | inl relaxed ↦ inl (omega (arith, smaller v))
              | inr (inl waiting) ↦ inr (inl (Memᴰ.append_left _ waiting))
              | inr (inr pending) ↦ elim (mem_removed before after (subst (Memᴰ _) taken pending)) [
                | inl taken_edge ↦ inl (relaxed_now (v, w, at s.vdata u) taken_edge)
                | inr kept ↦ inr (inr kept)
              ]
            ])
      ]
        where
          relaxed_now :
              (r : Relaxation) → r ≡ (dst, weight, val) → at improved.vdata r.0 ≤ r.2 + r.1
          relaxed_now r same =
              subst (λ (r : Relaxation). at improved.vdata r.0 ≤ r.2 + r.1) (sym same)
                (omega (arith, at_dst))

      gather_improved : Inv edges num_v max_weight src improved
      gather_improved = record {
        size = length-set s.vdata dst update ∙ h.size;
        source_in = h.source_in;
        source = omega (arith, smaller src, h.source);
        small = λ v. omega (arith, smaller v, h.small v);
        sound = improved_sound;
        items_sound = λ x m. elim (Memᴰ.append_cases s.items m) [
          | inl old ↦ let (walk, le) = h.items_sound x old in (walk, omega (arith, le, grown))
          | inr new ↦ rw (Memᴰ.eq_of_singleton new) (new-Walk, new_bound)
        ];
        relaxations_sound = λ r m.
            let (u, walk, edge, le) = rest_sound r m in (u, walk, edge, omega (arith, le, grown));
        covered = improved_covered;
      }

    pub gather-Inv :
        Inv edges num_v max_weight src
          (gather (dst, weight, val) (record s { relaxations = before ++ after }))
    unfolding gather gather_func push_func
    gather-Inv = rw apply_weight_lem (elim (dec_lt update (at s.vdata dst)) [
      | yes lt ↦ rw (lt→ltb _ _ lt) (gather_improved lt)
      | no ge ↦ rw (le→ltb update (at s.vdata dst) (omega arith)) (gather_kept (omega arith))
    ])
