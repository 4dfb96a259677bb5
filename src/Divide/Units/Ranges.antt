-- ===== src/Divide/Units/Ranges.antt =====
-- The loop over the units of libcoro/include/galois/graphs/GraphHelpers.h leaves the ends of their
-- shares.
use corograph.Divide.{Weighing}
use corograph.Divide.Shares.{Division, share, shares_tile}
use corograph.Divide.Units.{units_loop}
use corograph.Divide.Units.Corner.{Tiling}
use corograph.Base.{
  ℕ, zero, suc, ◌+◌, ◌-◌, ◌^◌, ◌≤◌, ◌<◌, ◌≡◌, ◌∙◌, inl, inr, List, [], ◌==◌, if◌then◌else◌, u32,
  arith, get_or, set, replicate, length, length-set, length-replicate, get_or-set_self,
  get_or-set_ne, Bool-cases,
}

module _ (w : Weighing) (n e units : ℕ) (division : Division w n e units [])
    (fits : w.node_offset + n < 2 ^ 32) where
  -- The end of the nodes of the first `j` units.
  abbrev bound : ℕ → ℕ
  bound zero = w.node_offset
  bound (suc j) = (share division j).nodes_upper + w.node_offset

  bound_lower : (j : ℕ) → j < units → bound j ≡ (share division j).nodes_lower + w.node_offset
  bound_lower zero h = let t = (shares_tile division).0 in omega arith
  bound_lower (suc j) h = let t = (shares_tile division).2 j h in omega arith

  bound_le : (j k : ℕ) → j + k ≡ units → 0 < j → bound j ≤ w.node_offset + n
  bound_le j zero h p =
      let t = (shares_tile division).1 in
      let q : j ≡ suc (units - 1) = omega arith in rw q (omega arith)
  bound_le zero (suc k) h p = absurd (omega arith)
  bound_le (suc j) (suc k) h p =
      let r = bound_le (suc (suc j)) k (omega arith) (omega arith) in
      let l = bound_lower (suc j) (omega arith) in
      let o = (shares_tile division).3 (suc j) (omega arith) in omega arith

  -- What the loop writes for unit `i`.
  written :
      (i : ℕ) (ranges : List ℕ)
      → i < units
      → get_or ranges i 0 ≡ bound i
      → (if (share division i).nodes_lower == (share division i).nodes_upper
          then get_or ranges i 0
          else u32 ((share division i).nodes_upper + w.node_offset))
        ≡ bound (suc i)
  written i ranges h p =
      let l = bound_lower i h in
      let o = bound_le (suc i) (units - suc i) (omega arith) (omega arith) in ground arith

  pub units_loop_lem :
      (left i : ℕ) (ranges : List ℕ)
      → i + left ≡ units
      → length ranges ≡ units + 1
      → ((j : ℕ) → j ≤ i → get_or ranges j 0 ≡ bound j)
      → (j : ℕ) → j ≤ units
      → get_or (units_loop w n e units left i ranges) j 0 ≡ bound j
  unfolding units_loop
  units_loop_lem zero i ranges h l done j p = done j (omega arith)
  units_loop_lem (suc left) i ranges h l done j p =
      rw (written i ranges (omega arith) (done i (omega arith))) (
        units_loop_lem left (suc i) (set ranges (suc i) (bound (suc i))) (omega arith)
          (length-set ranges (suc i) (bound (suc i)) ∙ l)
          (λ k q. elim (Bool-cases (k == suc i)) [
            | inl f ↦
                let s : k ≡ suc i = ground arith in
                rw s (get_or-set_self ranges (suc i) (bound (suc i)) 0 (omega arith))
            | inr f ↦
                get_or-set_ne ranges (suc i) k (bound (suc i)) 0
                  (λ x. let y : k ≡ suc i = omega arith in ground arith)
                ∙ done k (ground arith)
          ])
          j p)

  pub units_loop-Tiling :
      Tiling units w.node_offset
        (w.node_offset + n)
        (units_loop w n e units units 0 (set (replicate (units + 1) 0) 0 w.node_offset))
  units_loop-Tiling =
      let ends =
        units_loop_lem units 0 (set (replicate (units + 1) 0) 0 w.node_offset) (omega arith)
          (length-set (replicate (units + 1) 0) 0 w.node_offset ∙ length-replicate (units + 1) 0)
          (λ k q.
            let z : k ≡ 0 = omega arith in
            rw z (
              get_or-set_self (replicate (units + 1) 0) 0 w.node_offset 0
                (omega (arith, length-replicate {A = ℕ} (units + 1) 0)))) in
      let d = division.some_division in
      record {
        first = ends 0 (omega arith);
        last =
            let q : suc (units - 1) ≡ units = omega arith in
            let a = ends (suc (units - 1)) (omega arith) in
            let t = (shares_tile division).1 in rw q at a ∙ (omega arith);
        ordered = λ i h.
            let a = ends i (omega arith) in
            let b = ends (suc i) h in
            let l = bound_lower i h in let o = (shares_tile division).3 i h in omega arith;
      }
