-- ===== src/Components/Terminates.antt =====
-- `cc` of app/cc/crg-cc.cpp returns.
use mathlib.Core.WellFounded.{Acc}
use corograph.Base.{
  ℕ, zero, suc, ◌<◌, ◌≤◌, ◌≡◌, refl, [], ◌⊎◌, inl, inr, ◌==◌, arith, Bool-cases, List-cases,
}
use corograph.Partition.{Csr}
use corograph.Components.{
  State, Phase, untested, lowered, copied, finished, init, Step, tested, copied_label, loaded,
  minimized, again, Done, Reach,
}
use corograph.Components.Invariant.{IsGraph, Inv}
use corograph.Components.Reached.{Reach-Inv, Step-Inv}
use corograph.Components.Measure.{
  olds, reads, calls, Falls, test-Falls, copy-Falls, load-Falls, lower-Falls, again-Falls,
}

module _ (g : Csr) where
  Step-Falls : {s t : State} → Inv g s → Step g s t → Falls g s t
  Step-Falls {s} h (tested src p e) = test-Falls g src s p e
  Step-Falls {s} h (copied_label src p e) = copy-Falls g src s p (h.falls src e)
  Step-Falls {s} h (loaded src p e) = load-Falls g src s p e
  Step-Falls {s} h (minimized before after call e) = lower-Falls g before after call s e
  Step-Falls {s} h (again ended e) = again-Falls g s e

  abbrev pub Ends : State → Type 0
  Ends = Acc (λ t s. Step g s t)

  ends : (a b c : ℕ) (s : State) → Inv g s → olds g s < a → reads g s < b → calls g s < c → Ends s
  ends zero b c s h ha hb hc = absurd (omega arith)
  ends (suc a) zero c s h ha hb hc = absurd (omega arith)
  ends (suc a) (suc b) zero s h ha hb hc = absurd (omega arith)
  ends (suc a) (suc b) (suc c) s h ha hb hc = Acc.intro s λ t st.
      let kept = Step-Inv g h st in
      elim (Step-Falls h st) [
        | inl less ↦
            ends a (suc (reads g t)) (suc (calls g t)) t kept (omega arith) (omega arith)
              (omega arith)
        | inr (inl (same, less)) ↦
            ends (suc a) b (suc (calls g t)) t kept (omega arith) (omega arith) (omega arith)
        | inr (inr (same, read, less)) ↦
            ends (suc a) (suc b) c t kept (omega arith) (omega arith) (omega arith)
      ]

  abbrev CanStep : State → Type 0
  CanStep s = (t : State) × Step g s t

  step_of_phase :
      (s : State) (v : ℕ) (p : Phase)
      → s.phase v ≡ p
      → v < g.num_v
      → (s.phase v ≡ finished) ⊎ CanStep s
  step_of_phase s v untested e h = inr (_, tested v h e)
  step_of_phase s v lowered e h = inr (_, copied_label v h e)
  step_of_phase s v copied e h = inr (_, loaded v h e)
  step_of_phase s v finished e h = inl e

  all_or_step :
      (s : State) (n : ℕ) → n ≤ g.num_v → ((v : ℕ) → v < n → s.phase v ≡ finished) ⊎ CanStep s
  all_or_step s zero h = inl (λ v p. absurd (omega arith))
  all_or_step s (suc n) h = elim (step_of_phase s n (s.phase n) refl h) [
    | inr can ↦ inr can
    | inl last ↦ elim (all_or_step s n (omega arith)) [
      | inr can ↦ inr can
      | inl all ↦ inl (λ v p. elim (Bool-cases (v == n)) [
        | inl e ↦ let same : v ≡ n = ground arith in rw same last
        | inr e ↦ all v (ground arith)
      ])
    ]
  ]

  progress : (s : State) → Done g s ⊎ CanStep s
  progress s = elim (List-cases s.spread) [
    | inr (call, rest, e) ↦ inr (_, minimized [] rest call e)
    | inl none_left ↦ elim (all_or_step s g.num_v (omega arith)) [
      | inr can ↦ inr can
      | inl all ↦ elim (Bool-cases s.changed) [
        | inl e ↦ inr (_, again (none_left, all) e)
        | inr e ↦ inl ((none_left, all), e)
      ]
    ]
  ]

  -- From every state that `cc` reaches no run is infinite, whatever the order in which the threads
  -- take their steps, and `cc` has returned or a thread can take a step.
  pub cc_terminates :
      IsGraph g → {s : State} → Reach g init s → Ends s × (Done g s ⊎ ((t : State) × Step g s t))
  cc_terminates graph {s} reached = (
    ends (suc (olds g s)) (suc (reads g s)) (suc (calls g s)) s (Reach-Inv g graph reached)
        (omega arith) (omega arith) (omega arith),
    progress s,
  )
