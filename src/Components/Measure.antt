-- ===== src/Components/Measure.antt =====
-- What the steps of `cc` of app/cc/crg-cc.cpp use up: each copy lowers a `comp_old`, and between copies
-- the reads, the rounds, the tests and the calls of `atomicMin` run out.
use corograph.Base.Total.{total, total_same, total_changed, total_zero}
use corograph.Base.{
  ℕ, ◌+◌, ◌*◌, ◌<◌, ◌≡◌, refl, ap, List, ◌∷◌, ◌++◌, ◌⊎◌, inl, inr, length, length-append, ltb, ◌==◌,
  if◌then◌else◌, Bool, true, false, arith, update,
}
use corograph.Partition.{Csr}
use corograph.Components.{
  State, Phase, untested, lowered, copied, finished, round, test, copy, load, lower,
}
use corograph.Components.Reached.{lower_old}

abbrev is_copied : Phase → ℕ
is_copied untested = 0
is_copied lowered = 0
is_copied copied = 1
is_copied finished = 0

abbrev is_untested : Phase → ℕ
is_untested untested = 1
is_untested lowered = 0
is_untested copied = 0
is_untested finished = 0

module _ (g : Csr) where
  abbrev pub olds : State → ℕ
  olds s = total (λ v. (s.label v).comp_old) g.num_v

  abbrev pub reads : State → ℕ
  reads s = total (λ v. is_copied (s.phase v)) g.num_v * 2 + (if s.changed then 1 else 0)

  abbrev pub calls : State → ℕ
  calls s = total (λ v. is_untested (s.phase v)) g.num_v + length s.spread

  abbrev pub Falls : State → State → Type 0
  Falls s t =
      (olds t < olds s)
      ⊎ ((olds t ≡ olds s) × (reads t < reads s)
          ⊎ (olds t ≡ olds s) × (reads t ≡ reads s) × (calls t < calls s))

  -- Setting the phase of one vertex.
  phases_changed :
      (value : Phase → ℕ) (phase : ℕ → Phase) (v : ℕ) (p : Phase)
      → v < g.num_v
      → total (λ u. value (update phase v p u)) g.num_v + value (phase v)
        ≡ total (λ u. value (phase u)) g.num_v + value p
  phases_changed value phase v p h =
      let same : (v == v) ≡ true = ground arith in
      rw same at (
        total_changed (λ u. value (phase u)) (λ u. value (update phase v p u)) g.num_v v h
          (λ u e. rw e refl))

  outcome_values :
      (b : Bool)
      → (is_copied (if b then lowered else finished) ≡ 0)
        × (is_untested (if b then lowered else finished) ≡ 0)
  outcome_values true = (refl, refl)
  outcome_values false = (refl, refl)

  pub test-Falls :
      (src : ℕ) (s : State) → src < g.num_v → s.phase src ≡ untested → Falls s (test src s)
  unfolding test
  test-Falls src s h e =
      let sdata = s.label src in
      let b = ltb sdata.comp_current sdata.comp_old in
      let p = if b then lowered else finished in
      let read = phases_changed is_copied s.phase src p h in
      let begun = phases_changed is_untested s.phase src p h in
      let values = outcome_values b in
      let no_read = ap is_copied e in
      let one = ap is_untested e in
      inr (inr (refl, ap (λ n. n * 2 + (if s.changed then 1 else 0)) (omega arith), omega arith))

  pub copy-Falls :
      (src : ℕ) (s : State)
      → src < g.num_v
      → (s.label src).comp_current < (s.label src).comp_old
      → Falls s (copy src s)
  unfolding copy
  copy-Falls src s h less =
      let same : (src == src) ≡ true = ground arith in
      let sum =
        total_changed (λ v. (s.label v).comp_old) (λ v. ((copy src s).label v).comp_old) g.num_v src
          h (λ u e. rw e refl) in
      let n : ((copy src s).label src).comp_old ≡ (s.label src).comp_current = rw same refl in
      inl (omega arith)

  pub load-Falls :
      (src : ℕ) (s : State) → src < g.num_v → s.phase src ≡ copied → Falls s (load g src s)
  unfolding load
  load-Falls src s h e =
      let read = phases_changed is_copied s.phase src finished h in
      let one = ap is_copied e in inr (inl (refl, ground arith))

  pub lower-Falls :
      (before after : List (ℕ × ℕ)) (call : ℕ × ℕ) (s : State)
      → s.spread ≡ before ++ call ∷ after
      → Falls s (lower call (record s { spread = before ++ after }))
  unfolding lower
  lower-Falls before after (dst, label_new) s e =
      let rest = record s { spread = before ++ after } in
      let l = ap length e in
      let a = length-append before ((dst, label_new) ∷ after) in
      let b = length-append before after in
      inr (
        inr (
          total_same (λ v. (s.label v).comp_old)
              (λ v. ((lower (dst, label_new) rest).label v).comp_old) g.num_v
              (λ v p. lower_old g (dst, label_new) rest v),
          refl,
          omega arith,
        ))

  pub again-Falls : (s : State) → s.changed ≡ true → Falls s (round s.label)
  again-Falls s e = let z = total_zero g.num_v in inr (inl (refl, rw e (omega arith)))
