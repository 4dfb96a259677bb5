-- ===== src/UnionFind/Merge.antt =====
-- `merge` of libcoro/include/galois/UnionFind.h joins two trees.
use corograph.UnionFind.{find, find_and_compress, exchange, merge_loop, merge}
use corograph.UnionFind.Root.{
  Descends, root, root_rep, root_next, root_unique, root_fixed, find-root,
}
use corograph.UnionFind.Compress.{Same, Same-trans, find_and_compress-Same}
use corograph.Base.{
  ℕ, suc, ◌<◌, ◌≡◌, ◌∙◌, refl, ap, inl, inr, true, false, min, max, ltb, ◌==◌, if◌then◌else◌, arith,
  Bool-cases, update, some,
}

-- All nodes below `high` are below `low`, and the others where they were.
record Joined (m m' : ℕ → ℕ) (high low : ℕ) : Type 0 where
  descends : Descends m'
  roots : (x : ℕ) → root m' x ≡ (if root m x == high then low else root m x)

module _ {m : ℕ → ℕ} (descends : Descends m) where
  link-Joined : (a b : ℕ) → m a ≡ a → m b ≡ b → b < a → Joined m (update m a b) a b
  link-Joined a b ra rb h =
      let d : Descends (update m a b) = λ n. elim (Bool-cases (n == a)) [
        | inl e ↦ rw e (ground arith)
        | inr e ↦ rw e (descends n)
      ] in
      record {
        descends = d;
        roots =
            root_unique (update m a b) d (λ x. if root m x == a then b else root m x)
              (λ n f. elim (Bool-cases (n == a)) [
                | inl e ↦ absurd (let g = rw e at f in ground arith)
                | inr e ↦ let g = root_rep m descends n (rw e at f) in rw g (rw e refl)
              ])
              (λ n f. elim (Bool-cases (n == a)) [
                | inl e ↦
                    let g : n ≡ a = ground arith in
                    let p : root m n ≡ a = ap (root m) g ∙ root_rep m descends a ra in
                    let q = root_rep m descends b rb in
                    let t : (a == a) ≡ true = ground arith in
                    let u : (b == a) ≡ false = ground arith in rw (e, p, t, q, u) refl
                | inr e ↦ let g = root_next m descends n in rw (e, g) refl
              ]);
      }

  unchanged-Joined : (m' : ℕ → ℕ) (a : ℕ) → Same m m' → Joined m m' a a
  unchanged-Joined m' a s = record {
    descends = s.descends;
    roots = λ x.
        s.roots x
        ∙ (elim (Bool-cases (root m x == a)) [ inl e ↦ rw e (ground arith) | inr e ↦ rw e refl ]);
  }

Same-Joined : {m n o : ℕ → ℕ} {a b : ℕ} → Same m n → Joined n o a b → Joined m o a b
Same-Joined s j = record { descends = j.descends; roots = λ x. rw (s.roots x) at (j.roots x) }

exchange_own : (m : ℕ → ℕ) (a b : ℕ) → m a ≡ a → exchange m a b a ≡ (true, a, update m a b)
unfolding exchange
exchange_own m a b e = let t : (m a == a) ≡ true = ground arith in rw (t, e) refl

module _ (m : ℕ → ℕ) (descends : Descends m) (a b : ℕ) where
  abbrev fa : ℕ × (ℕ → ℕ)
  fa = find_and_compress m a

  abbrev fb : ℕ × (ℕ → ℕ)
  fb = find_and_compress fa.1 b

  fa-Same : Same m fa.1
  fa-Same = (find_and_compress-Same m descends a).1

  fb-Same : Same m fb.1
  fb-Same = Same-trans fa-Same (find_and_compress-Same fa.1 fa-Same.descends b).1

  fa-root : fa.0 ≡ root m a
  fa-root = (find_and_compress-Same m descends a).0

  fb-root : fb.0 ≡ root m b
  fb-root = (find_and_compress-Same fa.1 fa-Same.descends b).0 ∙ fa-Same.roots b

  -- Both results are still roots.
  fixed : (x : ℕ) → fb.1 (root m x) ≡ root m x
  fixed x = rw (fb-Same.roots x) at (root_fixed fb.1 fb-Same.descends x)

  linked :
      (high low : ℕ)
      → fb.1 high ≡ high
      → fb.1 low ≡ low
      → low < high
      → Joined m (update fb.1 high low) high low
  linked high low p q h = Same-Joined fb-Same (link-Joined fb-Same.descends high low p q h)

  abbrev Merges : (k : ℕ) → Type 0
  Merges k =
      (m' : ℕ → ℕ) × (merge_loop m (suc k) a b
        ≡ some (if root m a == root m b then 0 else min (root m a) (root m b), m'))
      × Joined m m' (max (root m a) (root m b)) (min (root m a) (root m b))

  merge_loop-Merges : (k : ℕ) → Merges k
  unfolding merge_loop
  merge_loop-Merges k =
      let pa = fixed a in
      let pb = fixed b in
      elim (Bool-cases (root m a == root m b)) [
        | inl e ↦
            let f : min (root m a) (root m b) ≡ root m a = ground arith in
            let g : max (root m a) (root m b) ≡ root m a = ground arith in
            rw (fa-root, fb-root, e, f, g)
              (fb.1, refl, unchanged-Joined descends fb.1 (root m a) fb-Same)
        | inr e ↦ elim (Bool-cases (ltb (root m a) (root m b))) [
          | inl c ↦
              let f : min (root m a) (root m b) ≡ root m a = ground arith in
              let g : max (root m a) (root m b) ≡ root m b = ground arith in
              let x = exchange_own fb.1 (root m b) (root m a) pb in
              rw (fa-root, fb-root, e, c, f, g, x)
                (
                  update fb.1 (root m b) (root m a),
                  refl,
                  linked (root m b) (root m a) pb pa (ground arith),
                )
          | inr c ↦
              let f : min (root m a) (root m b) ≡ root m b = ground arith in
              let g : max (root m a) (root m b) ≡ root m a = ground arith in
              let x = exchange_own fb.1 (root m a) (root m b) pa in
              rw (fa-root, fb-root, e, c, f, g, x)
                (
                  update fb.1 (root m a) (root m b),
                  refl,
                  linked (root m a) (root m b) pa pb (ground arith),
                )
        ]
      ]

-- `merge` ends in its first round and joins the two trees: the nodes of the tree with the higher
-- root go to the lower root, all others keep theirs, all links still lead to lower addresses, and
-- the result is the lower root, or 0 if both nodes were in one tree.
pub merge_joins :
    (m : ℕ → ℕ)
    → Descends m
    → (this b : ℕ)
    → (m' : ℕ → ℕ) × (merge m this b
        ≡ some (if find m this == find m b then 0 else min (find m this) (find m b), m'))
      × Descends m'
      × ((x : ℕ)
          → find m' x ≡ (
              if find m x == max (find m this) (find m b)
              then min (find m this) (find m b)
              else find m x))
unfolding merge
merge_joins m descends this b =
    let r = merge_loop-Merges m descends (m this) b 0 in
    let n = root_next m descends this in
    rw (find-root m descends this, find-root m descends b, n)
      (
        r.0,
        r.1,
        r.2.descends,
        λ x. rw (find-root m descends x) (find-root r.0 r.2.descends x ∙ r.2.roots x),
      )
