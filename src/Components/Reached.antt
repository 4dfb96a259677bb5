-- ===== src/Components/Reached.antt =====
-- The invariant of `cc` of app/cc/crg-cc.cpp holds of every state that is reached.
use mathlib.Core.List.{Memᴰ}
use mathlib.Core.List.Memᴰ
use corograph.Base.{
  ℕ, ◌≡◌, refl, sym, ap, ◌∙◌, subst, List, ◌∷◌, ◌++◌, inl, inr, min, ltb, ◌==◌, if◌then◌else◌,
  arith, Bool-cases,
}
use corograph.Partition.{Csr}
use corograph.Sssp.Walk.{mem_removed, mem_kept, mem_middle}
use corograph.Components.{
  State, round, init, lower, Step, tested, copied_label, loaded, minimized, again, Ended, Reach,
  next,
}
use corograph.Components.Kept.{init-Inv, test-Inv, copy-Inv, load-Inv}
use corograph.Components.Invariant.{Walk, IsGraph, Inv}

module _ (g : Csr) where
  lower_current :
      (dst label_new : ℕ) (s : State) (v : ℕ)
      → ((lower (dst, label_new) s).label v).comp_current
        ≡ (if v == dst then min label_new (s.label v).comp_current else (s.label v).comp_current)
  unfolding lower
  lower_current dst label_new s v = elim (Bool-cases (v == dst)) [
    | inl e ↦ let p : v ≡ dst = ground arith in rw e (rw p refl)
    | inr e ↦ rw e refl
  ]

  pub lower_old :
      (call : ℕ × ℕ) (s : State) (v : ℕ) → ((lower call s).label v).comp_old ≡ (s.label v).comp_old
  unfolding lower
  lower_old (dst, label_new) s v = elim (Bool-cases (v == dst)) [
    | inl e ↦ let p : v ≡ dst = ground arith in rw e (rw p refl)
    | inr e ↦ rw e refl
  ]

  Walk_min : (a b v : ℕ) → Walk g a v → Walk g b v → Walk g (min a b) v
  Walk_min a b v p q = elim (Bool-cases (ltb a b)) [
    | inl e ↦ let m : min a b ≡ a = ground arith in rw m p
    | inr e ↦ let m : min a b ≡ b = ground arith in rw m q
  ]

  module _ (before after : List (ℕ × ℕ)) (dst label_new : ℕ) (s : State)
      (taken : s.spread ≡ before ++ (dst, label_new) ∷ after) (h : Inv g s) where
    abbrev rest : State
    rest = record s { spread = before ++ after }

    lower-Inv : Inv g (lower (dst, label_new) rest)
    unfolding lower
    lower-Inv = record {
      small = λ v p.
          let c = lower_current dst label_new rest v in
          let o = lower_old (dst, label_new) rest v in let l = h.small v p in ground arith;
      below = λ v. let c = lower_current dst label_new rest v in let l = h.below v in ground arith;
      sound = λ v. elim (Bool-cases (v == dst)) [
        | inl e ↦
            let p : v ≡ dst = ground arith in
            let w : Walk g label_new v = rw p (
              h.spread_sound dst label_new (
                subst (Memᴰ (dst, label_new)) (sym taken)
                  (mem_middle (dst, label_new) before after))) in
            rw (lower_current dst label_new rest v)
              (rw e (Walk_min label_new (s.label v).comp_current v w (h.sound v)))
        | inr e ↦ rw e (h.sound v)
      ];
      spread_sound = λ d l m.
          h.spread_sound d l
            (subst (Memᴰ (d, l)) (sym taken) (mem_kept (dst, label_new) before after m));
      covered = λ u v lt edge.
          let c = lower_current dst label_new rest v in
          let o = lower_old (dst, label_new) rest u in
          elim (h.covered u v lt edge) [
            | inl met ↦ inl (ground arith)
            | inr (inl reading) ↦ inr (inl reading)
            | inr (inr (l, m, le)) ↦ elim (mem_removed before after (subst (Memᴰ _) taken m)) [
              | inl same ↦
                  let d = ap (λ (q : ℕ × ℕ). q.0) same in
                  let n = ap (λ (q : ℕ × ℕ). q.1) same in inl (ground arith)
              | inr kept ↦ inr (inr (l, kept, omega (arith)))
            ]
          ];
      falls = λ v f.
          let c = lower_current dst label_new rest v in
          let o = lower_old (dst, label_new) rest v in let l = h.falls v f in ground arith;
      unchanged = λ e. absurd (
          Memᴰ.not-nil (
            subst (Memᴰ (dst, label_new)) (sym taken ∙ (h.unchanged e).0)
              (mem_middle (dst, label_new) before after)));
    }

  round-Inv : (s : State) → Ended g.num_v s → Inv g s → Inv g (round s.label)
  round-Inv s (none_left, all) h = record {
    small = h.small;
    below = h.below;
    sound = h.sound;
    spread_sound = λ dst label_new m. absurd (Memᴰ.not-nil m);
    covered = λ u v lt edge. elim (h.covered u v lt edge) [
      | inl met ↦ inl met
      | inr (inl reading) ↦ absurd (ground (arith, all u lt, reading))
      | inr (inr (l, m, le)) ↦ absurd (Memᴰ.not-nil (subst (Memᴰ (v, l)) none_left m))
    ];
    falls = λ v e. ground arith;
    unchanged = λ e. (refl, λ v f. ground arith);
  }

  pub Step-Inv : {s t : State} → Inv g s → Step g s t → Inv g t
  Step-Inv {s} h (tested src p e) = test-Inv g src s e h
  Step-Inv {s} h (copied_label src p e) = copy-Inv g src s p e h
  Step-Inv {s} h (loaded src p e) = load-Inv g src s p e h
  Step-Inv {s} h (minimized before after (dst, label_new) e) =
      lower-Inv before after dst label_new s e h
  Step-Inv {s} h (again ended e) = round-Inv s ended h

  pub Reach-Inv : {s : State} → IsGraph g → Reach g init s → Inv g s
  Reach-Inv graph Reach.here = init-Inv g graph
  Reach-Inv graph (next r st) = Step-Inv (Reach-Inv graph r) st
