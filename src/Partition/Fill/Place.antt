-- ===== src/Partition/Fill/Place.antt =====
-- Where the last pass of `partition` puts each pair of words
-- (libcoro/include/galois/graphs/Partition_Graph.h): the first seven pairs of a vertex in its
-- `vtxArr`, the others behind one another in `pledge`.
use corograph.Base.{
  ℕ, suc, ◌+◌, ◌-◌, ◌*◌, ◌^◌, ◌<◌, ◌≤◌, ◌≡◌, refl, sym, ap, ◌∙◌, List, [], ◌∷◌, ◌++◌, append-nil,
  append_assoc, length, length-append, set, take, length-set, arith, u32,
}
use native.Mathlib.Decide.{dec_lt}
use corograph.Partition.{in_d}
use corograph.Partition.Fill.{Fill, put, put_high}
use corograph.Partition.Fill.Stored.{Pair, flat, flat-append, take-set_pair}

-- The pairs `ps` are stored: `inner` in the `vtxArr` and `outer` in `pledge` behind `before`.
pub record Placed (before : List ℕ) (s : Fill) (ps : List Pair) : Type 0 where
  pub inner : List Pair
  pub outer : List Pair
  pub all : ps ≡ inner ++ outer
  pub pe_size : length s.pe ≡ in_d
  pub inplace_at : s.inplace ≡ 2 * length inner
  pub inplace_le : length inner ≤ 7
  pub overflow : length inner < 7 → outer ≡ []
  pub pe_has : take s.inplace s.pe ≡ flat inner
  pub outplace_at : s.outplace ≡ length before + 2 * length outer
  pub edge_has : take s.outplace s.edge ≡ before ++ flat outer
  pub edge_small : length s.edge < 2 ^ 32

-- What `put` does on its two branches, where no counter wraps.
put_inner :
    (a b : ℕ) (s : Fill)
    → s.inplace < in_d
    → put a b s ≡ record s {
      pe = set (set s.pe s.inplace a) (suc s.inplace) b;
      inplace = suc (suc s.inplace);
    }
unfolding put
put_inner a b s h = ground arith

put_outer :
    (a b : ℕ) (s : Fill)
    → in_d ≤ s.inplace
    → suc s.outplace < 2 ^ 32 - 1
    → put a b s ≡ record s {
      edge = set (set s.edge s.outplace a) (suc s.outplace) b;
      outplace = suc (suc s.outplace);
    }
unfolding put
put_outer a b s h k = ground arith

flat_pair : (ps : List Pair) (a b : ℕ) → flat (ps ++ (a, b) ∷ []) ≡ flat ps ++ a ∷ b ∷ []
flat_pair ps a b = flat-append ps ((a, b) ∷ [])

module _ (before : List ℕ) (s : Fill) (ps : List Pair) (a b : ℕ) (h : Placed before s ps) where
  open h use {inner, outer, all, pe_size, inplace_at, inplace_le, overflow, pe_has}
  open h use {outplace_at, edge_has, edge_small}

  put-Placed_inner : length inner < 7 → Placed before (put a b s) (ps ++ (a, b) ∷ [])
  put-Placed_inner lt = rw (put_inner a b s (omega (arith, inplace_at))) (record {
    inner = inner ++ (a, b) ∷ [];
    outer = [];
    all =
        ap (λ t. t ++ (a, b) ∷ []) (all ∙ ap (λ t. inner ++ t) (overflow lt) ∙ append-nil inner)
        ∙ sym (append-nil (inner ++ (a, b) ∷ []));
    pe_size =
        length-set (set s.pe s.inplace a) (suc s.inplace) b ∙ length-set s.pe s.inplace a ∙ pe_size;
    inplace_at = omega (arith, inplace_at, length-append inner ((a, b) ∷ []));
    inplace_le = omega (arith, length-append inner ((a, b) ∷ []));
    overflow = λ _. refl;
    pe_has =
        take-set_pair s.inplace s.pe a b (omega (arith, inplace_at, pe_size))
        ∙ ap (λ t. t ++ a ∷ b ∷ []) pe_has
        ∙ sym (flat_pair inner a b);
    outplace_at = omega (arith, outplace_at, ap length (overflow lt));
    edge_has = edge_has ∙ ap (λ t. before ++ flat t) (overflow lt);
    edge_small = edge_small;
  })

  put-Placed_outer :
      7 ≤ length inner
      → suc s.outplace < length s.edge
      → Placed before (put a b s) (ps ++ (a, b) ∷ [])
  put-Placed_outer ge room =
      rw (put_outer a b s (omega (arith, inplace_at)) (omega (arith, edge_small))) (record {
        inner = inner;
        outer = outer ++ (a, b) ∷ [];
        all = ap (λ t. t ++ (a, b) ∷ []) all ∙ append_assoc inner outer ((a, b) ∷ []);
        pe_size = pe_size;
        inplace_at = inplace_at;
        inplace_le = inplace_le;
        overflow = λ lt. absurd (omega arith);
        pe_has = pe_has;
        outplace_at = omega (arith, outplace_at, length-append outer ((a, b) ∷ []));
        edge_has =
            take-set_pair s.outplace s.edge a b room
            ∙ ap (λ t. t ++ a ∷ b ∷ []) edge_has
            ∙ append_assoc before (flat outer) (a ∷ b ∷ [])
            ∙ ap (λ t. before ++ t) (sym (flat_pair outer a b));
        edge_small = omega (
          arith,
          edge_small,
          length-set (set s.edge s.outplace a) (suc s.outplace) b,
          length-set s.edge s.outplace a,
        );
      })

  -- A pair is placed behind the others if `pledge` has room for what the `vtxArr` has not.
  pub put-Placed :
      length before + 2 * suc (length ps) ≤ length s.edge + in_d
      → Placed before (put a b s) (ps ++ (a, b) ∷ [])
  put-Placed room = elim (dec_lt (length inner) 7) [
    | yes lt ↦ put-Placed_inner lt
    | no ge ↦
        put-Placed_outer (omega arith)
          (omega (arith, outplace_at, ap length all, length-append inner outer))
  ]

-- What `put` leaves alone.
pub put-frame :
    (a b : ℕ) (s : Fill)
    → (length (put a b s).edge ≡ length s.edge)
      × ((put a b s).high ≡ s.high)
      × ((put a b s).high_e ≡ s.high_e)
unfolding put
put-frame a b s = ground (
  arith,
  length-set (set s.edge s.outplace a) (u32 (s.outplace + 1)) b,
  length-set s.edge s.outplace a,
)

-- What `put_high` does where its counter does not wrap.
pub put_high_lem :
    (a b : ℕ) (s : Fill)
    → suc s.high_e < 2 ^ 32 - 1
    → put_high a b s ≡ record s {
      high = set (set s.high s.high_e a) (suc s.high_e) b;
      high_e = suc (suc s.high_e);
    }
unfolding put_high
put_high_lem a b s k = ground arith

-- Writes to `highedge` do not move the pairs.
pub put_high-Placed :
    {before : List ℕ} {s : Fill} {ps : List Pair} (high : List ℕ) (high_e : ℕ)
    → Placed before s ps
    → Placed before (record s { high = high; high_e = high_e }) ps
put_high-Placed high high_e h = record {
  inner = h.inner;
  outer = h.outer;
  all = h.all;
  pe_size = h.pe_size;
  inplace_at = h.inplace_at;
  inplace_le = h.inplace_le;
  overflow = h.overflow;
  pe_has = h.pe_has;
  outplace_at = h.outplace_at;
  edge_has = h.edge_has;
  edge_small = h.edge_small;
}
