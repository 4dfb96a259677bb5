-- ===== src/Worklist/LinkedQueue/Segment.antt =====
-- Chains of nodes, for libcoro/include/galois/worklists/WorkListHelpers.h.
use corograph.Base.{ℕ, ◌≡◌, ◌≢◌, refl, sym, ◌∙◌, subst, List, [], ◌∷◌, ◌++◌, arith}
use corograph.Worklist.LinkedQueue.{Queue, link}

-- `x` is not among the nodes.
abbrev pub Fresh : ℕ → List ℕ → Type 0
Fresh x [] = Unit {0}
Fresh x (y ∷ ys) = (x ≢ y) × Fresh x ys

-- From `p` the links lead through exactly the nodes `xs`, none of them null and none twice, to null.
abbrev pub Chain : (ℕ → ℕ) → ℕ → List ℕ → Type 0
Chain next p [] = p ≡ 0
Chain next p (x ∷ xs) = (p ≡ x) × (x ≢ 0) × Fresh x xs × Chain next (next x) xs

-- The last node, or null.
abbrev pub last : List ℕ → ℕ
last [] = 0
last (x ∷ []) = x
last (x ∷ y ∷ ys) = last (y ∷ ys)

-- The queue holds the nodes `xs`, oldest first.
pub record Holds (q : Queue) (xs : List ℕ) : Type 0 where
  pub chain : Chain q.next q.head xs
  pub tail_at : q.tail ≡ last xs

pub Fresh-append : (x y : ℕ) (xs : List ℕ) → Fresh x xs → x ≢ y → Fresh x (xs ++ y ∷ [])
Fresh-append x y [] f ne = (ne, tt)
Fresh-append x y (z ∷ xs) f ne = (f.0, Fresh-append x y xs f.1 ne)

pub link_same : (next : ℕ → ℕ) (a b : ℕ) → link next a b a ≡ b
link_same next a b = ground arith

pub link_other : (next : ℕ → ℕ) (a b x : ℕ) → x ≢ a → link next a b x ≡ next x
link_other next a b x ne = ground arith

-- A write to a node outside the chain is not seen.
pub Chain-link :
    (next : ℕ → ℕ) (a b p : ℕ) (xs : List ℕ)
    → Fresh a xs
    → Chain next p xs
    → Chain (link next a b) p xs
Chain-link next a b p [] f c = c
Chain-link next a b p (x ∷ xs) f (e, ne, fresh, rest) = (
  e,
  ne,
  fresh,
  subst (λ t. Chain (link next a b) t xs) (sym (link_other next a b x (λ q. f.0 (sym q))))
      (Chain-link next a b (next x) xs f.1 rest),
)

pub last-ne_head : (x y : ℕ) (ys : List ℕ) → Fresh x (y ∷ ys) → x ≢ last (y ∷ ys)
last-ne_head x y [] f = f.0
last-ne_head x y (z ∷ zs) f = last-ne_head x z zs f.1

-- A node that is linked behind the last one extends the chain.
pub Chain-append :
    (next : ℕ → ℕ) (c p x : ℕ) (xs : List ℕ)
    → c ≢ 0
    → next c ≡ 0
    → Fresh c (x ∷ xs)
    → Chain next p (x ∷ xs)
    → Chain (link next (last (x ∷ xs)) c) p (x ∷ xs ++ c ∷ [])
Chain-append next c p x [] nz end f (e, ne, fresh, rest) =
    (e, ne, ((λ q. f.0 (sym q)), tt), (link_same next x c, nz, tt, link_other next x c c f.0 ∙ end))
Chain-append next c p x (y ∷ ys) nz end f (e, ne, fresh, rest) = (
  e,
  ne,
  Fresh-append x c (y ∷ ys) fresh (λ q. f.0 (sym q)),
  subst (λ t. Chain (link next (last (y ∷ ys)) c) t (y ∷ ys ++ c ∷ []))
      (sym (link_other next (last (y ∷ ys)) c x (last-ne_head x y ys fresh)))
      (Chain-append next c (next x) y ys nz end f.1 rest),
)

pub last-append : (xs : List ℕ) (c : ℕ) → last (xs ++ c ∷ []) ≡ c
last-append [] c = refl
last-append (x ∷ []) c = refl
last-append (x ∷ y ∷ ys) c = last-append (y ∷ ys) c

pub last-ne-zero :
    (next : ℕ → ℕ) (p x : ℕ) (xs : List ℕ) → Chain next p (x ∷ xs) → last (x ∷ xs) ≢ 0
last-ne-zero next p x [] (e, ne, fresh, rest) = ne
last-ne-zero next p x (y ∷ ys) (e, ne, fresh, rest) = last-ne-zero next (next x) y ys rest
