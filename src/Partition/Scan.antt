-- ===== src/Partition/Scan.antt =====
-- The loop over the edges of one vertex that both passes of `partition` in
-- libcoro/include/galois/graphs/Partition_Graph.h share: it calls the pass at the end of each run
-- of edges with one destination partition.
use corograph.Base.{
  ℕ, zero, suc, ◌+◌, ◌-◌, ◌^◌, ◌<◌, ◌≤◌, ◌≡◌, refl, ap, ◌≢◌, Bool, true, false, not, ◌||◌, List, [],
  ◌∷◌, u32, shr, ltb, ◌==◌, if◌then◌else◌, arith, inl, inr, Bool-cases, lt→ltb, le→ltb, sym,
}
use native.Mathlib.Decide.{dec_lt, ℕ_discrete}
use corograph.Partition.{at}

-- A run: `prev_e`, `e` and `prev_p` where the loop's body is entered.
pub record Run : Type 0 where
  pub first : ℕ
  pub stop : ℕ
  pub part : ℕ

module _ (ngh : List ℕ) (plog stop : ℕ) where
  -- The destination partition of edge `e`.
  abbrev pub part_of : ℕ → ℕ
  part_of e = shr (at ngh e) plog

  -- The test of the loop: the partition changes, or this is the last edge.
  abbrev pub boundary : ℕ → ℕ → Bool
  boundary e prev_p = not (prev_p == part_of e) || (e == stop - 1)

  -- Where the run ends: behind the last edge, or at the edge that left the partition.
  abbrev pub run_end : ℕ → ℕ
  run_end e = if e == stop - 1 then u32 (e + 1) else e

  -- `for (e = …; e < stop; e++) if (boundary) { …flush…; prev_p = p; prev_e = e; }`
  unfoldable pub scan {ℓ} : {S : Type ℓ} → (ℕ → ℕ → ℕ → S → S) → ℕ → ℕ → ℕ → ℕ → S → S
  scan flush zero e prev_e prev_p s = s
  scan flush (suc fuel) e prev_e prev_p s = elim (ltb e stop) [
    | false ↦ s
    | true ↦ elim (boundary e prev_p) [
      | true ↦
          scan flush fuel (u32 (run_end e + 1)) (run_end e) (part_of e)
            (flush prev_e (run_end e) prev_p s)
      | false ↦ scan flush fuel (u32 (e + 1)) prev_e prev_p s
    ]
  ]

  -- The runs in the order in which the loop meets them.
  unfoldable pub runs : ℕ → ℕ → ℕ → ℕ → List Run
  runs zero e prev_e prev_p = []
  runs (suc fuel) e prev_e prev_p = elim (ltb e stop) [
    | false ↦ []
    | true ↦ elim (boundary e prev_p) [
      | true ↦
          record { first = prev_e; stop = run_end e; part = prev_p }
          ∷ runs fuel (u32 (run_end e + 1)) (run_end e) (part_of e)
      | false ↦ runs fuel (u32 (e + 1)) prev_e prev_p
    ]
  ]

-- A pass, run by run.
unfoldable pub each_run {ℓ} : {S : Type ℓ} → (ℕ → ℕ → ℕ → S → S) → List Run → S → S
each_run flush [] s = s
each_run flush (r ∷ rs) s = each_run flush rs (flush r.first r.stop r.part s)

module _ (ngh : List ℕ) (plog stop : ℕ) where
  pub scan-eq-each_run {ℓ} :
      {S : Type ℓ} (flush : ℕ → ℕ → ℕ → S → S) (fuel e prev_e prev_p : ℕ) (s : S)
      → scan ngh plog stop flush fuel e prev_e prev_p s
        ≡ each_run flush (runs ngh plog stop fuel e prev_e prev_p) s
  unfolding scan runs each_run
  scan-eq-each_run flush zero e prev_e prev_p s = refl
  scan-eq-each_run flush (suc fuel) e prev_e prev_p s = elim (Bool-cases (ltb e stop)) [
    | inr out ↦ rw (out, scan, runs)
    | inl inside ↦ elim (Bool-cases (boundary ngh plog stop e prev_p)) [
      | inl cut ↦ rw (inside, cut, scan, runs) (scan-eq-each_run flush fuel _ _ _ _)
      | inr on ↦ rw (inside, on, scan, runs) (scan-eq-each_run flush fuel _ _ _ _)
    ]
  ]

  -- The runs from `a` on follow one another up to `b`, and none is empty. All edges of a run but
  -- the last edge of the vertex lead into the run's partition.
  abbrev pub Tiles : ℕ → List Run → Type 0
  Tiles a [] = a ≡ stop
  Tiles a (r ∷ rs) =
      (r.first ≡ a)
      × (a < r.stop)
      × (r.stop ≤ stop)
      × ((k : ℕ) → a ≤ k → k < r.stop → k ≢ stop - 1 → part_of ngh plog stop k ≡ r.part)
      × (r.part ≡ part_of ngh plog stop a)
      × Tiles r.stop rs

  runs-done : (fuel e prev_e prev_p : ℕ) → stop ≤ e → runs ngh plog stop fuel e prev_e prev_p ≡ []
  unfolding runs
  runs-done zero e prev_e prev_p h = refl
  runs-done (suc fuel) e prev_e prev_p h = rw (le→ltb e stop h, runs)

  boundary-false :
      (e prev_p : ℕ)
      → boundary ngh plog stop e prev_p ≡ false
      → (prev_p ≡ part_of ngh plog stop e) × (e ≢ stop - 1)
  boundary-false e prev_p h = ground arith

  runs_on :
      (fuel e prev_e prev_p : ℕ)
      → e < stop
      → boundary ngh plog stop e prev_p ≡ false
      → runs ngh plog stop (suc fuel) e prev_e prev_p
        ≡ runs ngh plog stop fuel (u32 (e + 1)) prev_e prev_p
  unfolding runs
  runs_on fuel e prev_e prev_p lt on = rw (lt→ltb e stop lt, on, runs)

  runs_cut :
      (fuel e prev_e prev_p : ℕ)
      → e < stop
      → boundary ngh plog stop e prev_p ≡ true
      → runs ngh plog stop (suc fuel) e prev_e prev_p
        ≡ record { first = prev_e; stop = run_end ngh plog stop e; part = prev_p }
          ∷ runs ngh plog stop fuel
              (u32 (run_end ngh plog stop e + 1))
              (run_end ngh plog stop e)
              (part_of ngh plog stop e)
  unfolding runs
  runs_cut fuel e prev_e prev_p lt cut = rw (lt→ltb e stop lt, cut, runs)

  run_end_last :
      (e : ℕ) → stop < 2 ^ 32 - 1 → e < stop → e ≡ stop - 1 → run_end ngh plog stop e ≡ stop
  run_end_last e big lt h = ground arith

  run_end_mid : (e : ℕ) → e ≢ stop - 1 → run_end ngh plog stop e ≡ e
  run_end_mid e h = ground arith

  cut_before :
      (e prev_e prev_p : ℕ)
      → boundary ngh plog stop e prev_p ≡ true
      → e ≢ stop - 1
      → prev_e ≤ e
      → prev_p ≡ part_of ngh plog stop prev_e
      → prev_e < e
  cut_before e prev_e prev_p cut mid le pe = elim (ℕ_discrete prev_e e) [
    | yes q ↦ absurd (ground (arith, ap (part_of ngh plog stop) q))
    | no q ↦ omega arith
  ]

  runs-Tiles_from :
      (fuel e prev_e prev_p : ℕ)
      → stop < 2 ^ 32 - 1
      → stop - e ≤ fuel
      → e < stop
      → prev_e ≤ e
      → prev_p ≡ part_of ngh plog stop prev_e
      → ((k : ℕ) → prev_e ≤ k → k < e → part_of ngh plog stop k ≡ prev_p)
      → Tiles prev_e (runs ngh plog stop fuel e prev_e prev_p)
  runs-Tiles_from zero e prev_e prev_p big f lt le pe same = absurd (omega arith)
  runs-Tiles_from (suc fuel) e prev_e prev_p big f lt le pe same =
      elim (Bool-cases (boundary ngh plog stop e prev_p)) [
        | inr on ↦
            let facts = boundary-false e prev_p on in
            let next : u32 (e + 1) ≡ e + 1 = omega arith in
            rw (runs_on fuel e prev_e prev_p lt on, next)
              (runs-Tiles_from fuel (e + 1) prev_e prev_p big (omega arith) (omega (arith, facts.1))
                (omega arith) pe
                (λ k lo hi. elim (dec_lt k e) [
                  | yes p ↦ same k lo p
                  | no p ↦ let q : k ≡ e = omega arith in rw q (sym facts.0)
                ]))
        | inl cut ↦ rw (runs_cut fuel e prev_e prev_p lt cut) (elim (ℕ_discrete e (stop - 1)) [
          | yes last ↦
              let next : u32 (stop + 1) ≡ stop + 1 = omega arith in
              rw
                (
                  run_end_last e big lt last,
                  next,
                  runs-done fuel (stop + 1) stop (part_of ngh plog stop e) (omega arith),
                )
                (refl, omega arith, omega arith, (λ k lo hi mid. same k lo (omega arith)), pe, refl)
          | no mid ↦
              let next : u32 (e + 1) ≡ e + 1 = omega arith in
              rw (run_end_mid e mid, next)
                (
                  refl,
                  cut_before e prev_e prev_p cut mid le pe,
                  omega arith,
                  (λ k lo hi _. same k lo hi),
                  pe,
                  runs-Tiles_from fuel (e + 1) e (part_of ngh plog stop e) big (omega arith)
                      (omega arith) (omega arith) refl
                      (λ k lo hi. let q : k ≡ e = omega arith in rw q refl),
                )
        ])
      ]

  -- `prev_p` before the loop: the partition of the first edge.
  abbrev pub vertex_runs : ℕ → List Run
  vertex_runs start = runs ngh plog stop (stop - start) start start (part_of ngh plog stop start)

  pub vertex_runs-Tiles :
      (start : ℕ) → stop < 2 ^ 32 - 1 → start ≤ stop → Tiles start (vertex_runs start)
  vertex_runs-Tiles start big le = elim (dec_lt start stop) [
    | yes lt ↦
        runs-Tiles_from (stop - start) start start (part_of ngh plog stop start) big (omega arith)
          lt (omega arith) refl (λ k lo hi. absurd (omega arith))
    | no ge ↦
        rw (runs-done (stop - start) start start (part_of ngh plog stop start) (omega arith))
          (omega arith)
  ]
