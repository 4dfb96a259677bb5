-- ===== src/Partition/Fill/Filling.antt =====
-- The invariant of the last pass of `partition` over the runs of a vertex
-- (libcoro/include/galois/graphs/Partition_Graph.h).
use corograph.Base.{
  ℕ, zero, suc, ◌+◌, ◌-◌, ◌*◌, ◌^◌, ◌<◌, ◌≤◌, ◌≡◌, refl, sym, ap, ap₂, ◌∙◌, List, [], ◌∷◌, ◌++◌,
  append-nil, length, length-append, length-take, take, arith, leb, Bool-cases, inl, inr,
}
use corograph.Partition.{Csr, in_d, pl_d, at, header, max_bit, sub32}
use corograph.Partition.Scan.{Run}
use corograph.Partition.Count.{run_words, run_high}
use corograph.Partition.Fill.{Fill, put, store_low, store_high, fill_run}
use corograph.Partition.Fill.Stored.{
  Pair, flat, Stored, AllStored, AllStored-grow, AllStored-append, low, run,
}
use corograph.Partition.Fill.Place.{Placed, put-Placed, put-frame, put_high-Placed}
use corograph.Partition.Fill.Store.{
  edges_from, length-edges_from, store_low-frame, store_low-Placed, store_high-frame,
}

-- The edges `es` are stored in `words` words of the vertex, the runs among them in `highedge`.
pub record Filling (before : List ℕ) (s : Fill) (es : List Pair) (words : ℕ) : Type 0 where
  pub pairs : List Pair
  pub placed : Placed before s pairs
  pub stored : AllStored (take s.high_e s.high) pairs es
  pub counted : 2 * length pairs ≡ words
  pub high_fits : s.high_e ≤ length s.high
  pub high_small : length s.high < 2 ^ 32

-- What `fill_run` did to the counters and the sizes.
pub record Advance (s t : Fill) (high : ℕ) : Type 0 where
  pub edge_size : length t.edge ≡ length s.edge
  pub high_size : length t.high ≡ length s.high
  pub high_e_at : t.high_e ≡ s.high_e + high
  pub high_has : (grown : List ℕ) × (take t.high_e t.high ≡ take s.high_e s.high ++ grown)

-- A run that the words of the format can describe.
pub record Fits (g : Csr) (r : Run) : Type 0 where
  pub nonempty : r.first < r.stop
  pub small : r.stop < 2 ^ 32
  pub short : r.stop - r.first < 2 ^ 14
  pub part_small : r.part < 2 ^ 16
  pub ids : (k : ℕ) → r.first ≤ k → k < r.stop → at g.ngh k < max_bit

module _ (g : Csr) where
  low-AllStored :
      (high : List ℕ) (te n : ℕ)
      → ((k : ℕ) → te ≤ k → k < te + n → at g.ngh k < max_bit)
      → AllStored high (edges_from g te n) (edges_from g te n)
  low-AllStored high te zero ids = refl
  low-AllStored high te (suc n) ids = (
    (at g.ngh te, at g.weight te) ∷ [],
    edges_from g (te + 1) n,
    refl,
    low (ids te (omega arith) (omega arith)) refl,
    low-AllStored high (te + 1) n (λ k lo hi. ids k (omega arith) (omega arith)),
  )

  abbrev pub run_edges : Run → List Pair
  run_edges r = edges_from g r.first (r.stop - r.first)

  module _ (before : List ℕ) (s : Fill) (es : List Pair) (words : ℕ) (r : Run) where
    abbrev After : Fill → ℕ → ℕ → Type 0
    After t w h = Filling before t (es ++ run_edges r) (words + w) × Advance s t h

    fill_low :
        Filling before s es words
        → Fits g r
        → length before + words + 2 * (r.stop - r.first) ≤ length s.edge + in_d
        → After (store_low g (r.stop - r.first) r.first s) (2 * (r.stop - r.first)) 0
    fill_low h fits room =
        let n = r.stop - r.first in
        let frame = store_low-frame g n r.first s in
        (
          record {
            pairs = h.pairs ++ run_edges r;
            placed =
                store_low-Placed g before n r.first s h.pairs h.placed (omega (arith, h.counted));
            stored =
                rw (frame.high_same, frame.high_e_same)
                  (AllStored-append (take s.high_e s.high) h.pairs es (run_edges r) (run_edges r)
                    h.stored
                    (low-AllStored (take s.high_e s.high) r.first n
                      (λ k lo hi. fits.ids k lo (omega (arith, fits.nonempty)))));
            counted = omega (
              arith,
              h.counted,
              length-append h.pairs (run_edges r),
              length-edges_from g r.first n,
            );
            high_fits = rw (frame.high_same, frame.high_e_same) h.high_fits;
            high_small = rw frame.high_same h.high_small;
          },
          record {
            edge_size = frame.edge_size;
            high_size = ap length frame.high_same;
            high_e_at = frame.high_e_same ∙ omega arith;
            high_has = (
              [],
              rw (frame.high_same, frame.high_e_same) (sym (append-nil (take s.high_e s.high))),
            );
          },
        )

    fill_high :
        Filling before s es words
        → Fits g r
        → length before + words + 2 ≤ length s.edge + in_d
        → s.high_e + 2 * (r.stop - r.first) ≤ length s.high
        → After
            (store_high g
              (r.stop - r.first)
              r.first
              (put (header (r.stop - r.first) r.part) s.high_e s))
            2
            (2 * (r.stop - r.first))
    fill_high h fits room high_room =
        let n = r.stop - r.first in
        let new = run_edges r in
        let (edge_same, high_same, high_e_same) = put-frame (header n r.part) s.high_e s in
        let s1 = put (header n r.part) s.high_e s in
        let size : length new ≡ n = length-edges_from g r.first n in
        let frame =
          store_high-frame g n r.first s1 (rw (high_same, high_e_same) high_room)
            (rw high_same h.high_small) in
        let old = take s.high_e s.high in
        let old_size : length old ≡ s.high_e =
          omega (arith, length-take s.high_e s.high, h.high_fits) in
        let grown : take (s1.high_e + 2 * length new) frame.high ≡ old ++ flat new =
          frame.has ∙ ap₂ (λ k (l : List ℕ). take k l ++ flat new) high_e_same high_same in
        let header_stored : Stored (old ++ flat new) (header n r.part, s.high_e) new =
          run r.part old [] fits.part_small (omega (arith, size, fits.short))
            (ap (λ k. header k r.part) (sym size)) (sym old_size)
            (ap (λ t. old ++ t) (sym (append-nil (flat new)))) in
        rw frame.same (
          record {
            pairs = h.pairs ++ (header n r.part, s.high_e) ∷ [];
            placed = put_high-Placed frame.high (s1.high_e + 2 * length new) (
                put-Placed before s h.pairs (header n r.part) s.high_e h.placed
                  (omega (arith, h.counted)));
            stored = rw grown (
                AllStored-append (old ++ flat new) h.pairs es ((header n r.part, s.high_e) ∷ []) new
                  (AllStored-grow old (flat new) h.pairs es h.stored)
                  (new, [], sym (append-nil new), header_stored, refl));
            counted =
                omega (arith, h.counted, length-append h.pairs ((header n r.part, s.high_e) ∷ []));
            high_fits = omega (arith, frame.size, high_e_same, ap length high_same, size);
            high_small = omega (arith, frame.size, ap length high_same, h.high_small);
          },
          record {
            edge_size = edge_same;
            high_size = frame.size ∙ ap length high_same;
            high_e_at = omega (arith, high_e_same, size);
            high_has = (flat new, grown);
          },
        )

    -- A run takes `run_words` words of the vertex and `run_high` words of `highedge`.
    pub fill_run-Filling :
        Filling before s es words
        → Fits g r
        → length before + words + run_words r ≤ length s.edge + in_d
        → s.high_e + run_high r ≤ length s.high
        → After (fill_run g r.first r.stop r.part s) (run_words r) (run_high r)
    unfolding fill_run
    fill_run-Filling h fits room high_room =
        let n = r.stop - r.first in
        let deg : sub32 r.stop r.first ≡ n = omega (arith, fits.nonempty, fits.small) in
        elim (Bool-cases (leb n pl_d)) [
          | inl short ↦ rw (deg, short) (fill_low h fits (rw short at room))
          | inr long ↦ rw (deg, long) (fill_high h fits (rw long at room) (rw long at high_room))
        ]
