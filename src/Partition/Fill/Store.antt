-- ===== src/Partition/Fill/Store.antt =====
-- One run of edges through the last pass of `partition`
-- (libcoro/include/galois/graphs/Partition_Graph.h).
use corograph.Base.{
  ℕ, zero, suc, ◌+◌, ◌*◌, ◌^◌, ◌<◌, ◌≤◌, ◌≡◌, refl, sym, ap, ◌∙◌, List, [], ◌∷◌, ◌++◌, append-nil,
  append_assoc, length, length-append, set, take, length-set, arith,
}
use corograph.Partition.{Csr, in_d, at}
use corograph.Partition.Fill.{Fill, put, put_high, store_low, store_high}
use corograph.Partition.Fill.Stored.{Pair, flat, take-set_pair}
use corograph.Partition.Fill.Place.{Placed, put-Placed, put-frame, put_high_lem}

module _ (g : Csr) where
  -- The edges `te, …, te + n - 1` of the CSR arrays: destination and weight.
  abbrev pub edges_from : ℕ → ℕ → List Pair
  edges_from te zero = []
  edges_from te (suc n) = (at g.ngh te, at g.weight te) ∷ edges_from (te + 1) n

  pub length-edges_from : (te n : ℕ) → length (edges_from te n) ≡ n
  length-edges_from te zero = refl
  length-edges_from te (suc n) = ap suc (length-edges_from (te + 1) n)

  -- What a short run leaves alone.
  pub record LowFrame (s t : Fill) : Type 0 where
    pub edge_size : length t.edge ≡ length s.edge
    pub high_same : t.high ≡ s.high
    pub high_e_same : t.high_e ≡ s.high_e

  pub store_low-frame : (n te : ℕ) (s : Fill) → LowFrame s (store_low g n te s)
  unfolding store_low
  store_low-frame zero te s = record { edge_size = refl; high_same = refl; high_e_same = refl }
  store_low-frame (suc n) te s =
      let (p, q, r) = put-frame (at g.ngh te) (at g.weight te) s in
      let ih = store_low-frame n (te + 1) (put (at g.ngh te) (at g.weight te) s) in
      record {
        edge_size = ih.edge_size ∙ p;
        high_same = ih.high_same ∙ q;
        high_e_same = ih.high_e_same ∙ r;
      }

  pub store_low-Placed :
      (before : List ℕ) (n te : ℕ) (s : Fill) (ps : List Pair)
      → Placed before s ps
      → length before + 2 * (length ps + n) ≤ length s.edge + in_d
      → Placed before (store_low g n te s) (ps ++ edges_from te n)
  unfolding store_low
  store_low-Placed before zero te s ps h room = rw (append-nil ps) h
  store_low-Placed before (suc n) te s ps h room =
      let a = at g.ngh te in
      let b = at g.weight te in
      let next = put-Placed before s ps a b h (omega arith) in
      let more =
        store_low-Placed before n (te + 1) (put a b s) (ps ++ (a, b) ∷ []) next
          (omega (arith, length-append ps ((a, b) ∷ []), (put-frame a b s).0)) in
      rw (append_assoc ps ((a, b) ∷ []) (edges_from (te + 1) n)) at more

  -- The words of a long run go behind one another into `highedge`.
  pub record HighFrame (s t : Fill) (es : List Pair) : Type 0 where
    pub high : List ℕ
    pub same : t ≡ record s { high = high; high_e = s.high_e + 2 * length es }
    pub size : length high ≡ length s.high
    pub has : take (s.high_e + 2 * length es) high ≡ take s.high_e s.high ++ flat es

  pub store_high-frame :
      (n te : ℕ) (s : Fill)
      → s.high_e + 2 * n ≤ length s.high
      → length s.high < 2 ^ 32
      → HighFrame s (store_high g n te s) (edges_from te n)
  unfolding store_high
  store_high-frame zero te s room small =
      let e : s.high_e + 2 * 0 ≡ s.high_e = omega arith in
      record {
        high = s.high;
        same = rw e;
        size = refl;
        has = rw e (sym (append-nil (take s.high_e s.high)));
      }
  store_high-frame (suc n) te s room small =
      let a = at g.ngh te in
      let b = at g.weight te in
      let high1 = set (set s.high s.high_e a) (suc s.high_e) b in
      let s1 = record s { high = high1; high_e = suc (suc s.high_e) } in
      let step : put_high a b s ≡ s1 = put_high_lem a b s (omega arith) in
      let size1 : length high1 ≡ length s.high =
        length-set (set s.high s.high_e a) (suc s.high_e) b ∙ length-set s.high s.high_e a in
      let ih = store_high-frame n (te + 1) s1 (omega (arith, size1)) (omega (arith, size1)) in
      let es = edges_from (te + 1) n in
      let e : suc (suc s.high_e) + 2 * length es ≡ s.high_e + 2 * suc (length es) = omega arith in
      rw step (record {
        high = ih.high;
        same = rw e at ih.same;
        size = ih.size ∙ size1;
        has =
            rw (← e) ih.has
            ∙ ap (λ t. t ++ flat es) (take-set_pair s.high_e s.high a b (omega arith))
            ∙ append_assoc (take s.high_e s.high) (a ∷ b ∷ []) (flat es);
      })
