-- ===== src/UnionFind/Compress.antt =====
-- The compression of paths in libcoro/include/galois/UnionFind.h.
use corograph.UnionFind.{is_rep, find, compress, shortcut, compress_loop, find_and_compress}
use corograph.UnionFind.Root.{
  Descends, root, root_rep, root_next, root_unique, root_fixed, root_le, to_root-root, find-root,
}
use corograph.Base.{
  ℕ, zero, suc, ◌≤◌, ◌<◌, ◌≡◌, ◌≢◌, ◌∙◌, refl, sym, ap, inl, inr, not, ◌&&◌, ◌==◌, arith,
  Bool-cases, update, update_same,
}

-- A map with the roots of another, whose links descend too.
pub record Same (m m' : ℕ → ℕ) : Type 0 where
  pub descends : Descends m'
  pub roots : (n : ℕ) → root m' n ≡ root m n

pub Same-refl : {m : ℕ → ℕ} → Descends m → Same m m
Same-refl d = record { descends = d; roots = λ n. refl }

pub Same-trans : {m n o : ℕ → ℕ} → Same m n → Same n o → Same m o
Same-trans a b = record { descends = b.descends; roots = λ n. b.roots n ∙ a.roots n }

module _ {m : ℕ → ℕ} (descends : Descends m) where
  -- A link to a lower node of the same tree keeps all roots.
  pub update-Same : (p q : ℕ) → q < p → root m p ≡ root m q → Same m (update m p q)
  update-Same p q h same =
      let d : Descends (update m p q) = λ n. elim (Bool-cases (n == p)) [
        | inl e ↦ rw e (ground arith)
        | inr e ↦ rw e (descends n)
      ] in
      record {
        descends = d;
        roots =
            root_unique (update m p q) d (root m)
              (λ n f. elim (Bool-cases (n == p)) [
                | inl e ↦ absurd (let g = rw e at f in ground arith)
                | inr e ↦ root_rep m descends n (rw e at f)
              ])
              (λ n f. elim (Bool-cases (n == p)) [
                | inl e ↦ let g : n ≡ p = ground arith in rw e (ap (root m) g ∙ same)
                | inr e ↦ rw e (root_next m descends n)
              ]);
      }

  shortcut-Same : (rep prev : ℕ) → m rep ≢ rep → Same m (shortcut m rep prev)
  unfolding shortcut
  shortcut-Same rep prev moving = elim (Bool-cases (not (prev == 0) && (m prev == rep))) [
    | inr e ↦ rw e (Same-refl descends)
    | inl e ↦ rw e (
        let f : m prev ≡ rep = ground arith in
        let a = descends prev in
        let b = descends rep in
        let g : prev ≢ rep = λ x. moving (ap m (sym x) ∙ f) in
        let c : m rep < prev = ground arith in
        update-Same prev (m rep) c
          (root_next m descends prev ∙ ap (root m) f ∙ root_next m descends rep))
  ]

-- `compress` keeps the root of every node, and then its node links to its root.
pub compress_keeps :
    (m : ℕ → ℕ)
    → Descends m
    → (n : ℕ)
    → Descends (compress m n)
      × ((x : ℕ) → find (compress m n) x ≡ find m x)
      × (compress m n n ≡ find m n)
unfolding compress is_rep
compress_keeps m descends n = elim (Bool-cases (m n == n)) [
  | inl e ↦
      let f : m n ≡ n = ground arith in
      rw e (descends, λ x. refl, f ∙ sym (root_rep m descends n f) ∙ sym (find-root m descends n))
  | inr e ↦
      let d = descends n in
      let r = to_root-root m descends (m n) (m n) (omega arith) in
      let l = root_le m descends (m n) in
      let same = root_next m descends n in
      let fixed = root_rep m descends (root m (m n)) (root_fixed m descends (m n)) in
      let s = update-Same descends n (root m (m n)) (ground arith) (same ∙ sym fixed) in
      rw (e, r)
        (
          s.descends,
          λ x. find-root _ s.descends x ∙ s.roots x ∙ sym (find-root m descends x),
          update_same m n (root m (m n)) ∙ sym same ∙ sym (find-root m descends n),
        )
]

compress_loop-Same :
    (m : ℕ → ℕ)
    → Descends m
    → (k rep prev : ℕ) → rep ≤ k
    → ((compress_loop m k rep prev).0 ≡ root m rep) × Same m (compress_loop m k rep prev).1
unfolding compress_loop
compress_loop-Same m descends zero rep prev h =
    let d = descends rep in
    let e : m rep ≡ rep = omega arith in (sym (root_rep m descends rep e), Same-refl descends)
compress_loop-Same m descends (suc k) rep prev h = elim (Bool-cases (m rep == rep)) [
  | inl e ↦
      let f : m rep ≡ rep = ground arith in
      rw e (sym (root_rep m descends rep f), Same-refl descends)
  | inr e ↦
      let d = descends rep in
      let f : m rep ≢ rep = λ x. ground arith in
      let g : m rep < rep = ground arith in
      let s = shortcut-Same descends rep prev f in
      let r = compress_loop-Same (shortcut m rep prev) s.descends k (m rep) rep (omega arith) in
      rw e (r.0 ∙ s.roots (m rep) ∙ sym (root_next m descends rep), Same-trans s r.1)
]

pub find_and_compress-Same :
    (m : ℕ → ℕ)
    → Descends m
    → (n : ℕ) → ((find_and_compress m n).0 ≡ root m n) × Same m (find_and_compress m n).1
unfolding find_and_compress is_rep
find_and_compress-Same m descends n = elim (Bool-cases (m n == n)) [
  | inl e ↦
      let f : m n ≡ n = ground arith in rw e (f ∙ sym (root_rep m descends n f), Same-refl descends)
  | inr e ↦
      let r = compress_loop-Same m descends (m n) (m n) 0 (omega arith) in
      rw e (r.0 ∙ sym (root_next m descends n), r.1)
]

-- `findAndCompress` gives what `find` gives, keeps the root of every node, and all links still
-- lead to lower addresses.
pub find_and_compress-find :
    (m : ℕ → ℕ)
    → Descends m
    → (n : ℕ)
    → ((find_and_compress m n).0 ≡ find m n)
      × Descends (find_and_compress m n).1
      × ((x : ℕ) → find (find_and_compress m n).1 x ≡ find m x)
find_and_compress-find m descends n =
    let r = find_and_compress-Same m descends n in
    (
      r.0 ∙ sym (find-root m descends n),
      r.1.descends,
      λ x. find-root _ r.1.descends x ∙ r.1.roots x ∙ sym (find-root m descends x),
    )
