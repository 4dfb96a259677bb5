-- ===== src/Divide/Units/Handled.antt =====
-- What unitRangeCornerCaseHandle of libcoro/src/GraphHelpers.cpp leaves behind.
use corograph.Divide.Units.{end_all, one_each, corner_case}
use corograph.Divide.Units.Corner.{
  Tiling, length-one_each, one_each_before, one_each_at, end_all_before, end_all_at,
}
use corograph.Base.{
  Bool, ℕ, zero, suc, ◌+◌, ◌-◌, ◌^◌, ◌≤◌, ◌<◌, ◌≡◌, ◌⊎◌, ◌∙◌, refl, sym, subst, inl, inr, List,
  true, false, ◌==◌, ltb, sub32, arith, get_or, set, replicate, length, length-set,
  length-replicate, get_or-set_self, get_or-set_ne, Bool-cases, lt→ltb, ltb→lt, ltb→le,
}

module _ (units begin end : ℕ) (some : 0 < units) (ordered : begin ≤ end)
    (small : end < 2 ^ 32) where
  -- The vector as the callers make it.
  abbrev fresh : List ℕ
  fresh = set (replicate (units + 1) 0) 0 begin

  length-fresh : length fresh ≡ units + 1
  length-fresh = length-set (replicate (units + 1) 0) 0 begin ∙ length-replicate (units + 1) 0

  fresh_first : get_or fresh 0 0 ≡ begin
  fresh_first =
      get_or-set_self (replicate (units + 1) 0) 0 begin 0
        (omega (arith, length-replicate {A = ℕ} (units + 1) 0))

  same_end : (i : ℕ) → i ≤ units → get_or (end_all units 0 begin fresh) i 0 ≡ begin
  same_end zero h = end_all_before units 0 begin 0 fresh (omega arith) ∙ fresh_first
  same_end (suc i) h =
      let l = length-fresh in
      end_all_at units 0 begin (suc i) fresh (omega arith) (omega arith) (omega arith)

  pub end_all-Tiling : Tiling units begin begin (end_all units 0 begin fresh)
  end_all-Tiling = record {
    first = same_end 0 (omega arith);
    last = same_end units (omega arith);
    ordered = λ i h.
        let a = same_end i (omega arith) in let b = same_end (suc i) (omega arith) in omega arith;
  }

  single-Tiling : units ≡ 1 → Tiling units begin end (set fresh 1 end)
  single-Tiling e =
      let l = length-fresh in
      let f = get_or-set_ne fresh 1 0 end 0 (λ x. omega arith) ∙ fresh_first in
      let g = get_or-set_self fresh 1 end 0 (omega arith) in
      record {
        first = f;
        last = subst (λ u. get_or (set fresh 1 end) u 0 ≡ end) (sym e) g;
        ordered = λ i h. let z : i ≡ 0 = omega arith in rw z (omega arith);
      }

  -- More units than nodes.
  abbrev spread : List ℕ
  spread =
      end_all (units - (end - begin)) (end - begin) (end - begin)
        (one_each (end - begin) 0 begin fresh)

  spread_first : get_or spread 0 0 ≡ begin
  spread_first =
      end_all_before (units - (end - begin)) (end - begin) (end - begin) 0
        (one_each (end - begin) 0 begin fresh) (omega arith)
      ∙ one_each_before (end - begin) 0 begin 0 fresh (omega arith)
      ∙ fresh_first

  spread_node : (i : ℕ) → end - begin < units → i ≤ end - begin → get_or spread i 0 ≡ begin + i
  spread_node zero many h = let f = spread_first in omega arith
  spread_node (suc i) many h =
      let l = length-fresh in
      let a =
        end_all_before (units - (end - begin)) (end - begin) (end - begin) (suc i)
          (one_each (end - begin) 0 begin fresh) h in
      let b =
        one_each_at (end - begin) 0 begin (suc i) fresh (omega arith) (omega arith) (omega arith)
          (omega arith) in
      omega arith

  -- A unit without a node gets the number of nodes for its end.
  pub spread_rest : (i : ℕ) → end - begin < i → i ≤ units → get_or spread i 0 ≡ end - begin
  spread_rest i h p =
      let l = length-fresh in
      let m = length-one_each (end - begin) 0 begin fresh in
      end_all_at (units - (end - begin)) (end - begin) (end - begin) i
        (one_each (end - begin) 0 begin fresh) h (omega arith) (omega arith)

  spread-Tiling : begin ≡ 0 → end - begin < units → Tiling units begin end spread
  spread-Tiling z many = record {
    first = spread_first;
    last = let a = spread_rest units many (omega arith) in omega arith;
    ordered = λ i h. elim (Bool-cases (ltb i (end - begin))) [
      | inl e ↦
          let k = ltb→lt i (end - begin) e in
          let a = spread_node i many (omega arith) in
          let b = spread_node (suc i) many (omega arith) in omega arith
      | inr e ↦
          let k = ltb→le i (end - begin) e in
          let b = spread_rest (suc i) (omega arith) (omega arith) in
          elim (Bool-cases (i == end - begin)) [
            | inl f ↦
                let g : i ≤ end - begin = ground arith in
                let a = spread_node i many g in omega arith
            | inr f ↦
                let g : end - begin < i = ground arith in
                let a = spread_rest i g (omega arith) in omega arith
          ]
    ];
  }

  abbrev pub corner : Bool × List ℕ
  corner = corner_case units begin end (replicate (units + 1) 0)

  -- A case that is handled has ranges that tile, where the range starts at node 0 or the units are
  -- not more than the nodes.
  pub corner_case-Tiling :
      (begin ≡ 0) ⊎ ((begin ≡ end) ⊎ (units ≤ end - begin))
      → corner.0 ≡ true
      → Tiling units begin end corner.1
  unfolding corner_case
  corner_case-Tiling usual handled =
      let t : sub32 end begin ≡ end - begin = omega arith in
      elim (Bool-cases (begin == end)) [
        | inl e ↦
            let q : begin ≡ end = ground arith in
            rw e (subst (λ x. Tiling units begin x (end_all units 0 begin fresh)) q end_all-Tiling)
        | inr e ↦ elim (Bool-cases (units == 1)) [
          | inl f ↦ let q : units ≡ 1 = ground arith in rw (e, f) (single-Tiling q)
          | inr f ↦ elim (Bool-cases (ltb (end - begin) units)) [
            | inl g ↦
                let many = ltb→lt (end - begin) units g in
                let z : begin ≡ 0 = ground arith in rw (e, f, t, g) (spread-Tiling z many)
            | inr g ↦ absurd (let h = rw (e, f, t, g) at handled in ground arith)
          ]
        ]
      ]

  -- A case that is not handled has a node, and no more units than nodes.
  pub corner_case_rest :
      corner.0 ≡ false
      → (begin < end) × (units ≤ end - begin) × (corner.1 ≡ replicate (units + 1) 0)
  unfolding corner_case
  corner_case_rest h =
      let t : sub32 end begin ≡ end - begin = omega arith in
      elim (Bool-cases (begin == end)) [
        | inl e ↦ absurd (let k = rw e at h in ground arith)
        | inr e ↦ elim (Bool-cases (units == 1)) [
          | inl f ↦ absurd (let k = rw (e, f) at h in ground arith)
          | inr f ↦ elim (Bool-cases (ltb (end - begin) units)) [
            | inl g ↦ absurd (let k = rw (e, f, t, g) at h in ground arith)
            | inr g ↦ rw (e, f, t, g) (ground arith, ltb→le (end - begin) units g, refl)
          ]
        ]
      ]

  -- More units than nodes from a node that is not the first: the last end is not that of the range.
  pub corner_case_astray :
      0 < begin
      → begin < end
      → end - begin < units
      → (corner.0 ≡ true) × (get_or corner.1 units 0 ≡ end - begin)
  unfolding corner_case
  corner_case_astray h p many =
      let t : sub32 end begin ≡ end - begin = omega arith in
      let e : (begin == end) ≡ false = ground arith in
      let f : (units == 1) ≡ false = ground arith in
      let g = lt→ltb (end - begin) units many in
      rw (e, f, t, g) (refl, spread_rest units many (omega arith))
