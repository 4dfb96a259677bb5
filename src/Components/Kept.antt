-- ===== src/Components/Kept.antt =====
-- The steps of `cc` of app/cc/crg-cc.cpp keep the invariant.
use mathlib.Core.List.Memᴰ
use corograph.Base.{
  ℕ, ◌<◌, ◌≤◌, ◌≡◌, refl, subst, inl, inr, ltb, ltb→lt, ltb→le, ◌==◌, if◌then◌else◌, arith,
  Bool-cases,
}
use corograph.Partition.{Csr}
use corograph.Components.{
  State, LNode, untested, lowered, copied, finished, targets, init, test, copy, load,
}
use corograph.Components.Invariant.{Walk, here, step, IsGraph, Inv}

module _ (g : Csr) where
  pub init-Inv : IsGraph g → Inv g init
  init-Inv graph = record {
    small = λ v h. omega (arith, graph.fits);
    below = λ v. omega arith;
    sound = λ v. here;
    spread_sound = λ dst label_new m. absurd (Memᴰ.not-nil m);
    covered = λ u v lt edge. inl (omega (arith, graph.fits, graph.in_range u v lt edge));
    falls = λ v e. ground arith;
    unchanged = λ e. (refl, λ v e. ground arith);
  }

  outcome :
      (sdata : LNode)
      → (if ltb sdata.comp_current sdata.comp_old then lowered else finished) ≡ lowered
      → sdata.comp_current < sdata.comp_old
  outcome sdata e = elim (Bool-cases (ltb sdata.comp_current sdata.comp_old)) [
    | inl l ↦ ltb→lt sdata.comp_current sdata.comp_old l
    | inr l ↦ absurd (ground (arith, rw l at e))
  ]

  outcome_finished :
      (sdata : LNode)
      → (if ltb sdata.comp_current sdata.comp_old then lowered else finished) ≡ finished
      → sdata.comp_old ≤ sdata.comp_current
  outcome_finished sdata e = elim (Bool-cases (ltb sdata.comp_current sdata.comp_old)) [
    | inl l ↦ absurd (ground (arith, rw l at e))
    | inr l ↦ ltb→le sdata.comp_current sdata.comp_old l
  ]

  pub test-Inv : (src : ℕ) (s : State) → s.phase src ≡ untested → Inv g s → Inv g (test src s)
  unfolding test
  test-Inv src s at_start h = record {
    small = h.small;
    below = h.below;
    sound = h.sound;
    spread_sound = h.spread_sound;
    covered = λ u v lt edge. elim (h.covered u v lt edge) [
      | inl met ↦ inl met
      | inr (inr pending) ↦ inr (inr pending)
      | inr (inl reading) ↦ inr (
          inl (elim (Bool-cases (u == src)) [
            | inl e ↦ absurd (ground (arith, at_start, reading, e))
            | inr e ↦ rw e reading
          ]))
    ];
    falls = λ v e. elim (Bool-cases (v == src)) [
      | inl same ↦ let p : v ≡ src = ground arith in rw p (outcome (s.label src) (rw same at e))
      | inr other ↦ h.falls v (rw other at e)
    ];
    unchanged = λ e. (
      (h.unchanged e).0,
      λ v f. elim (Bool-cases (v == src)) [
        | inl same ↦
            let p : v ≡ src = ground arith in rw p (outcome_finished (s.label src) (rw same at f))
        | inr other ↦ (h.unchanged e).1 v (rw other at f)
      ],
    );
  }

  copy_current :
      (src : ℕ) (s : State) (v : ℕ) → ((copy src s).label v).comp_current ≡ (s.label v).comp_current
  unfolding copy
  copy_current src s v = elim (Bool-cases (v == src)) [
    | inl e ↦ let p : v ≡ src = ground arith in rw e (rw p refl)
    | inr e ↦ rw e refl
  ]

  pub copy-Inv :
      (src : ℕ) (s : State) → src < g.num_v → s.phase src ≡ lowered → Inv g s → Inv g (copy src s)
  unfolding copy
  copy-Inv src s in_range at_start h = record {
    small = λ v p. elim (Bool-cases (v == src)) [
      | inl e ↦ rw e (omega arith)
      | inr e ↦ rw e (h.small v p)
    ];
    below = λ v. rw (copy_current src s v) (h.below v);
    sound = λ v. rw (copy_current src s v) (h.sound v);
    spread_sound = h.spread_sound;
    covered = λ u v lt edge. elim (Bool-cases (u == src)) [
      | inl e ↦ rw e (inr (inl refl))
      | inr e ↦ rw (copy_current src s v) (rw e (h.covered u v lt edge))
    ];
    falls = λ v f. elim (Bool-cases (v == src)) [
      | inl e ↦ absurd (ground (arith, rw e at f))
      | inr e ↦ rw e (h.falls v (rw e at f))
    ];
    unchanged = λ e'. (
      (h.unchanged e').0,
      λ v f. elim (Bool-cases (v == src)) [
        | inl e ↦ absurd (ground (arith, rw e at f))
        | inr e ↦ rw e ((h.unchanged e').1 v (rw e at f))
      ],
    );
  }

  pub load-Inv :
      (src : ℕ) (s : State) → src < g.num_v → s.phase src ≡ copied → Inv g s → Inv g (load g src s)
  unfolding load
  load-Inv src s in_range at_start h = record {
    small = h.small;
    below = h.below;
    sound = h.sound;
    spread_sound = λ dst label_new m. elim (Memᴰ.append_cases s.spread m) [
      | inl old ↦ h.spread_sound dst label_new old
      | inr new ↦
          let (v, edge, same) =
            Memᴰ.of_map (λ d. (d, (s.label src).comp_current)) (targets g src) new in
          subst (λ (c : ℕ × ℕ). Walk g c.1 c.0) same (step v (h.sound src) edge)
    ];
    covered = λ u v lt edge. elim (h.covered u v lt edge) [
      | inl met ↦ inl met
      | inr (inr (label_new, m, le)) ↦ inr (inr (label_new, Memᴰ.append_left _ m, le))
      | inr (inl reading) ↦ elim (Bool-cases (u == src)) [
        | inl e ↦
            let p : u ≡ src = ground arith in
            inr (
              inr (
                (s.label u).comp_current,
                rw p (
                    Memᴰ.append_right s.spread
                      (Memᴰ.map (λ d. (d, (s.label src).comp_current)) (rw p at edge))),
                h.small u lt,
              ))
        | inr e ↦ inr (inl (rw e reading))
      ]
    ];
    falls = λ v f. elim (Bool-cases (v == src)) [
      | inl e ↦ absurd (ground (arith, rw e at f))
      | inr e ↦ h.falls v (rw e at f)
    ];
    unchanged = λ e. absurd (ground arith);
  }
