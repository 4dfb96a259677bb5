-- ===== src/Worklist/Chunk/Write.antt =====
-- What the branches of `emplacei` of libcoro/include/galois/worklists/Chunk.h write.
use corograph.Base.{
  ℕ, ◌≡◌, ◌≢◌, refl, sym, ap, ◌∙◌, subst, Bool, false, List, [], ◌∷◌, ◌++◌, ◌==◌, ◌<◌, ◌^◌, arith,
  append-nil, append_assoc,
}
use corograph.Worklist.LinkedQueue.Segment.{Fresh, Fresh-append, Holds}
use corograph.Worklist.LinkedQueue.Refine.{push2-Holds}
use corograph.Worklist.Chunk.{Ring, Master, store, emplace_back, empty_ring, push_chunk}
use corograph.Worklist.Chunk.Contents.{
  IsRing, AllRings, contents, opened, items, Valid, store_same, contents-store, AllRings-store,
  contents-append, AllRings-append, emplace_back-IsRing, emplace_back-room,
}

module _ {ℓ} {A : Type ℓ} (chunk_size : ℕ) where
  pub opened_at : (chunk : ℕ → Ring A) (p : ℕ) → p ≢ 0 → opened chunk p ≡ (chunk p).datac
  opened_at chunk p nz = let present : (p == 0) ≡ false = ground arith in rw present refl

  -- The open chunk goes to the end of the queue.
  pub push_chunk-Valid :
      (m : Master A) (xs : List ℕ)
      → Holds m.q xs
      → AllRings chunk_size m.chunk xs
      → m.next ≢ 0
      → Fresh m.next xs
      → IsRing chunk_size (m.chunk m.next)
      → (m.cur ≢ 0 → Fresh m.cur xs × (m.cur ≢ m.next))
      → Valid chunk_size (push_chunk m).0 (xs ++ m.next ∷ [])
        × (items (push_chunk m).0 (xs ++ m.next ∷ []) ≡ items m xs)
  push_chunk-Valid m xs h rings nz fresh ring cur = (
    record {
      holds = push2-Holds m.q xs m.next h nz fresh;
      rings = AllRings-append chunk_size m.chunk xs m.next rings ring;
      next_fresh = λ ne. absurd (ne refl);
      next_ring = λ ne. absurd (ne refl);
      next_room = λ ne. absurd (ne refl);
      cur_fresh = λ ne. (Fresh-append m.cur m.next xs (cur ne).0 (cur ne).1, ne);
    },
    append-nil (contents m.chunk (xs ++ m.next ∷ []))
        ∙ contents-append m.chunk xs m.next
        ∙ ap (λ t. contents m.chunk xs ++ t) (sym (opened_at m.chunk m.next nz)),
  )

  pub emplace_back-datac :
      (r : Ring A) (val : A) → (emplace_back chunk_size r val).0.datac ≡ r.datac ++ val ∷ []
  unfolding emplace_back
  emplace_back-datac r val = refl

  first-count : (val : A) → (emplace_back chunk_size empty_ring val).0.count ≡ 1
  unfolding emplace_back
  first-count val = omega arith

  -- One more item in the open chunk.
  pub written-items :
      (m : Master A) (xs : List ℕ) (r : Ring A) (val : A)
      → m.next ≢ 0
      → Fresh m.next xs
      → r.datac ≡ (m.chunk m.next).datac ++ val ∷ []
      → items (record m { chunk = store m.chunk m.next r }) xs ≡ items m xs ++ val ∷ []
  written-items m xs r val nz fresh grown =
      rw
        (
          contents-store m.chunk m.next r xs fresh,
          opened_at (store m.chunk m.next r) m.next nz,
          store_same m.chunk m.next r,
          grown,
          opened_at m.chunk m.next nz,
        )
        (sym (append_assoc (contents m.chunk xs) (m.chunk m.next).datac (val ∷ [])))

  -- The three branches of `emplacei`.
  module _ (small : chunk_size < 2 ^ 32) (m : Master A) (xs : List ℕ) (v : Valid chunk_size m xs)
      (val : A) where
    abbrev pub grown : Ring A × Bool
    grown = emplace_back chunk_size (m.chunk m.next) val

    abbrev pub written : Master A
    written = record m { chunk = store m.chunk m.next grown.0 }

    pub grown-IsRing : m.next ≢ 0 → IsRing chunk_size (written.chunk m.next)
    grown-IsRing nz = subst (IsRing chunk_size) (sym (store_same m.chunk m.next grown.0)) (
        emplace_back-IsRing chunk_size (m.chunk m.next) val small ((v.next_ring nz).counted)
          (v.next_room nz))

    pub stay-Valid : m.next ≢ 0 → grown.1 ≡ false → Valid chunk_size written xs
    stay-Valid nz room = record {
      holds = v.holds;
      rings = AllRings-store chunk_size m.chunk m.next grown.0 xs (v.next_fresh nz) v.rings;
      next_fresh = v.next_fresh;
      next_ring = grown-IsRing;
      next_room = λ _.
          subst (λ r. r.count < chunk_size) (sym (store_same m.chunk m.next grown.0))
            (emplace_back-room chunk_size (m.chunk m.next) val small (v.next_room nz) room);
      cur_fresh = v.cur_fresh;
    }

    pub full-Valid :
        m.next ≢ 0
        → Valid chunk_size (push_chunk written).0 (xs ++ m.next ∷ [])
          × (items (push_chunk written).0 (xs ++ m.next ∷ []) ≡ items written xs)
    full-Valid nz =
        push_chunk-Valid written xs v.holds
          (AllRings-store chunk_size m.chunk m.next grown.0 xs (v.next_fresh nz) v.rings) nz
          (v.next_fresh nz) (grown-IsRing nz) v.cur_fresh

  -- A chunk that is made for its first item.
  pub first-Valid :
      (m : Master A) (xs : List ℕ) (val : A) (ptr : ℕ)
      → 1 < chunk_size
      → chunk_size < 2 ^ 32
      → Valid chunk_size m xs
      → Fresh ptr xs
      → m.cur ≢ ptr
      → let made = (emplace_back chunk_size empty_ring val).0 in
        Valid chunk_size (record m { chunk = store m.chunk ptr made; next = ptr }) xs
  first-Valid m xs val ptr two small v fresh other =
      let made = emplace_back chunk_size empty_ring val in
      let ring : IsRing chunk_size (store m.chunk ptr made.0 ptr) =
        subst (IsRing chunk_size) (sym (store_same m.chunk ptr made.0))
          (emplace_back-IsRing chunk_size empty_ring val small refl (omega arith)) in
      record {
        holds = v.holds;
        rings = AllRings-store chunk_size m.chunk ptr made.0 xs fresh v.rings;
        next_fresh = λ _. fresh;
        next_ring = λ _. ring;
        next_room = λ _.
            subst (λ r. r.count < chunk_size) (sym (store_same m.chunk ptr made.0))
              (subst (λ n. n < chunk_size) (sym (first-count val)) two);
        cur_fresh = λ ne. ((v.cur_fresh ne).0, other);
      }

  pub first-items :
      (m : Master A) (xs : List ℕ) (val : A) (ptr : ℕ)
      → m.next ≡ 0
      → ptr ≢ 0
      → Fresh ptr xs
      → let made = (emplace_back chunk_size empty_ring val).0 in
        items (record m { chunk = store m.chunk ptr made; next = ptr }) xs ≡ items m xs ++ val ∷ []
  first-items m xs val ptr none_open nz fresh =
      let made = (emplace_back chunk_size empty_ring val).0 in
      rw
        (
          contents-store m.chunk ptr made xs fresh,
          opened_at (store m.chunk ptr made) ptr nz,
          store_same m.chunk ptr made,
          emplace_back-datac empty_ring val,
          none_open,
        )
        (ap (λ t. t ++ val ∷ []) (sym (append-nil (contents m.chunk xs))))
