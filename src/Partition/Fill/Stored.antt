-- ===== src/Partition/Fill/Stored.antt =====
-- What the arrays of `partition` hold once a run is stored: pairs of words, each an edge or the
-- header of a run in `highedge` (libcoro/include/galois/graphs/Partition_Graph.h).
use corograph.Base.{
  ℕ, suc, ◌*◌, ◌^◌, ◌<◌, ◌≡◌, refl, ap, ◌∙◌, List, [], ◌∷◌, ◌++◌, append_assoc, length, set, take,
  take-set_end, length-set, arith,
}
use corograph.Partition.{header, max_bit}

-- Two words that lie side by side in an array.
abbrev pub Pair : Type 0
Pair = ℕ × ℕ

abbrev pub flat : List Pair → List ℕ
flat [] = []
flat ((a, b) ∷ ps) = a ∷ b ∷ flat ps

pub flat-append : (ps qs : List Pair) → flat (ps ++ qs) ≡ flat ps ++ flat qs
flat-append [] qs = refl
flat-append ((a, b) ∷ ps) qs = rw (flat-append ps qs)

pub length-flat : (ps : List Pair) → length (flat ps) ≡ 2 * length ps
length-flat [] = refl
length-flat ((a, b) ∷ ps) = omega (arith, length-flat ps)

-- A pair of writes just behind the first `n` words.
pub take-set_pair :
    (n : ℕ) (xs : List ℕ) (a b : ℕ)
    → suc n < length xs
    → take (suc (suc n)) (set (set xs n a) (suc n) b) ≡ take n xs ++ a ∷ b ∷ []
take-set_pair n xs a b h =
    take-set_end (suc n) (set xs n a) b (omega (arith, length-set xs n a))
    ∙ ap (λ t. t ++ b ∷ []) (take-set_end n xs a (omega arith))
    ∙ append_assoc (take n xs) (a ∷ []) (b ∷ [])

-- The edges that a pair of words stands for, where `highedge` begins with `high`: the pair itself,
-- or the run that its header and its start describe.
pub data Stored (high : List ℕ) (p : Pair) (es : List Pair) : Type 0 where
  low : p.0 < max_bit → es ≡ p ∷ [] → Stored high p es
  run :
      (part : ℕ) (before after : List ℕ)
      → part < 2 ^ 16
      → length es < 2 ^ 14
      → p.0 ≡ header (length es) part
      → p.1 ≡ length before
      → high ≡ before ++ (flat es ++ after)
      → Stored high p es

pub Stored-append :
    {high : List ℕ} {p : Pair} {es : List Pair} (more : List ℕ)
    → Stored high p es
    → Stored (high ++ more) p es
Stored-append more (low h e) = low h e
Stored-append {es} more (run part before after hp hl e0 e1 e) =
    run part before (after ++ more) hp hl e0 e1 (
      ap (λ t. t ++ more) e
      ∙ append_assoc before (flat es ++ after) more
      ∙ ap (λ t. before ++ t) (append_assoc (flat es) after more))

-- The edges that a list of pairs stands for, in order.
abbrev pub AllStored : List ℕ → List Pair → List Pair → Type 0
AllStored high [] es = es ≡ []
AllStored high (p ∷ ps) es =
    (first rest : List Pair) × (es ≡ first ++ rest) × Stored high p first × AllStored high ps rest

pub AllStored-grow :
    (high more : List ℕ) (ps es : List Pair) → AllStored high ps es → AllStored (high ++ more) ps es
AllStored-grow high more [] es h = h
AllStored-grow high more (p ∷ ps) es (first, rest, e, s, h) =
    (first, rest, e, Stored-append more s, AllStored-grow high more ps rest h)

pub AllStored-append :
    (high : List ℕ) (ps es qs fs : List Pair)
    → AllStored high ps es
    → AllStored high qs fs
    → AllStored high (ps ++ qs) (es ++ fs)
AllStored-append high [] es qs fs h k = rw h k
AllStored-append high (p ∷ ps) es qs fs (first, rest, e, s, h) k = (
  first,
  rest ++ fs,
  ap (λ t. t ++ fs) e ∙ append_assoc first rest fs,
  s,
  AllStored-append high ps rest qs fs h k,
)
