-- ===== src/Sssp/Terminates.antt =====
-- The shortest path search (app/sssp/crg-sssp.cpp) ends: each step lowers a distance, or leaves the
-- distances and takes an item away, or leaves both and takes an edge away.
use mathlib.Core.WellFounded.{Acc}
use native.Mathlib.Decide.{dec_lt}
use corograph.Base.{
  ℕ, zero, suc, ◌+◌, ◌<◌, ◌≤◌, ◌≡◌, refl, ap, List, [], ◌∷◌, ◌++◌, ◌⊎◌, inl, inr, length,
  length-append, set, arith, List-cases, lt→ltb, le→ltb,
}
use corograph.Partition.{at}
use corograph.Partition.Fill.Stored.{Pair}
use corograph.Executor.{Relaxation}
use corograph.Sssp.{
  VertexWarp, State, gather_func, apply_weight, scatter, gather, Step, scattered, gathered,
}

abbrev total : List ℕ → ℕ
total [] = 0
total (d ∷ ds) = d + total ds

total-set : (ds : List ℕ) (i d : ℕ) → d < at ds i → total (set ds i d) < total ds
total-set [] i d h = absurd (omega arith)
total-set (x ∷ ds) zero d h = omega arith
total-set (x ∷ ds) (suc i) d h = omega (arith, total-set ds i d h)

abbrev Falls : State → State → Type 0
Falls s t =
    (suc (total t.vdata) ≤ total s.vdata)
    ⊎ ((total t.vdata ≤ total s.vdata) × (suc (length t.items) ≤ length s.items)
        ⊎ (total t.vdata ≤ total s.vdata)
          × (length t.items ≤ length s.items)
          × (suc (length t.relaxations) ≤ length s.relaxations))

length_middle {ℓ} :
    {A : Type ℓ} (before : List A) (x : A) (after : List A)
    → length (before ++ x ∷ after) ≡ suc (length (before ++ after))
length_middle before x after =
    omega (arith, length-append before (x ∷ after), length-append before after)

module _ (edges : ℕ → List Pair) where
  scatter-frame :
      (item : VertexWarp) (s : State)
      → ((scatter edges item s).vdata ≡ s.vdata) × ((scatter edges item s).items ≡ s.items)
  unfolding scatter
  scatter-frame item s = ground arith

  gather-Falls :
      (r : Relaxation) (s : State)
      → (suc (total (gather r s).vdata) ≤ total s.vdata) ⊎ (gather r s ≡ s)
  unfolding gather gather_func
  gather-Falls (dst, weight, val) s =
      let update = apply_weight weight val in
      elim (dec_lt update (at s.vdata dst)) [
        | yes lt ↦ rw (lt→ltb _ _ lt) (inl (total-set s.vdata dst update lt))
        | no ge ↦ rw (le→ltb update (at s.vdata dst) (omega arith)) (inr refl)
      ]

  Step-Falls : {s t : State} → Step edges s t → Falls s t
  Step-Falls {s} (scattered before after item e) =
      let (same, items) = scatter-frame item (record s { items = before ++ after }) in
      inr (
        inl (
          omega (arith, ap total same),
          omega (arith, ap length items, ap length e, length_middle before item after),
        ))
  Step-Falls {s} (gathered before after r e) =
      let rest = record s { relaxations = before ++ after } in
      elim (gather-Falls r rest) [
        | inl less ↦ inl less
        | inr same ↦ inr (
            inr (
              omega (arith, ap (λ (t : State). total t.vdata) same),
              omega (arith, ap (λ (t : State). length t.items) same),
              omega (
                arith,
                ap (λ (t : State). length t.relaxations) same,
                ap length e,
                length_middle before r after,
              ),
            ))
      ]

  -- `Ends s` says that no run of steps from `s` is infinite.
  abbrev pub Ends : State → Type 0
  Ends = Acc (λ t s. Step edges s t)

  ends :
      (a b c : ℕ) (s : State)
      → total s.vdata < a
      → length s.items < b
      → length s.relaxations < c
      → Ends s
  ends zero b c s ha hb hc = absurd (omega arith)
  ends (suc a) zero c s ha hb hc = absurd (omega arith)
  ends (suc a) (suc b) zero s ha hb hc = absurd (omega arith)
  ends (suc a) (suc b) (suc c) s ha hb hc = Acc.intro s λ t st. elim (Step-Falls st) [
    | inl less ↦
        ends a (suc (length t.items)) (suc (length t.relaxations)) t (omega arith) (omega arith)
          (omega arith)
    | inr (inl (same, less)) ↦
        ends (suc a) b (suc (length t.relaxations)) t (omega arith) (omega arith) (omega arith)
    | inr (inr (same, items, less)) ↦
        ends (suc a) (suc b) c t (omega arith) (omega arith) (omega arith)
  ]

  -- No run of the search from any state is infinite, whatever order it takes its work in; and while
  -- an item or an edge is pending, it can take a step.
  pub sssp_terminates :
      (s : State)
      → Ends s × ((s.items ≡ []) × (s.relaxations ≡ []) ⊎ ((t : State) × Step edges s t))
  sssp_terminates s = (
    ends (suc (total s.vdata)) (suc (length s.items)) (suc (length s.relaxations)) s (omega arith)
        (omega arith) (omega arith),
    elim (List-cases s.items) [
      | inr (item, rest, e) ↦ inr (_, scattered [] rest item e)
      | inl empty ↦ elim (List-cases s.relaxations) [
        | inr (r, rest, e) ↦ inr (_, gathered [] rest r e)
        | inl done ↦ inl (empty, done)
      ]
    ],
  )
