-- ===== src/Worklist/Chunk/Fifo.antt =====
-- The partition queue of libcoro/include/galois/worklists/Chunk.h gives its items back in the order
-- in which they were pushed.
use corograph.Base.{
  ℕ, ◌≡◌, ◌≢◌, refl, sym, ap, ◌∙◌, subst, true, false, List, [], ◌∷◌, ◌++◌, ◌==◌, ◌<◌, ◌^◌, arith,
  Bool-cases, inl, inr, append-nil, append_assoc,
}
use corograph.Worklist.LinkedQueue.{pop2}
use corograph.Worklist.LinkedQueue.Segment.{Fresh}
use corograph.Worklist.LinkedQueue.Refine.{pop2-nil, pop2-cons}
use corograph.Worklist.Chunk.{
  Master, store, emplace_back, empty_ring, push_chunk, emplacei, push_next, del_chunk, clear, pop,
}
use corograph.Worklist.Chunk.Contents.{
  IsRing, contents, opened, items, Valid, store_other, contents-store, AllRings-store,
}
use corograph.Worklist.Chunk.Write.{
  push_chunk-Valid, written-items, stay-Valid, full-Valid, first-Valid, first-items, opened_at,
  emplace_back-datac,
}

module _ {ℓ} {A : Type ℓ} (chunk_size : ℕ) where
  -- The queue and the open chunk hold these items.
  abbrev pub Held : List A → Master A → Type ℓ
  Held all m = (xs : List ℕ) × Valid chunk_size m xs × (items m xs ≡ all)

  emplacei_first :
      (m : Master A) (val : A) (ptr : ℕ)
      → (m.next == 0) ≡ true
      → let made = (emplace_back chunk_size empty_ring val).0 in
        emplacei chunk_size m val ptr
        ≡ (record m { chunk = store m.chunk ptr made; next = ptr }, false)
  unfolding emplacei
  emplacei_first m val ptr empty = rw empty

  emplacei-full :
      (m : Master A) (val : A) (ptr : ℕ)
      → (m.next == 0) ≡ false
      → let (r, full) = emplace_back chunk_size (m.chunk m.next) val in
        full ≡ true
        → emplacei chunk_size m val ptr ≡ push_chunk (record m { chunk = store m.chunk m.next r })
  unfolding emplacei
  emplacei-full m val ptr opened_up full = rw (opened_up, full)

  emplacei_room :
      (m : Master A) (val : A) (ptr : ℕ)
      → (m.next == 0) ≡ false
      → let (r, full) = emplace_back chunk_size (m.chunk m.next) val in
        full ≡ false
        → emplacei chunk_size m val ptr ≡ (record m { chunk = store m.chunk m.next r }, false)
  unfolding emplacei
  emplacei_room m val ptr opened_up room = rw (opened_up, room)

  push_next_none : (m : Master A) → (m.next == 0) ≡ true → push_next m ≡ (m, false)
  unfolding push_next
  push_next_none m empty = rw empty

  push_next_some : (m : Master A) → (m.next == 0) ≡ false → push_next m ≡ push_chunk m
  unfolding push_next
  push_next_some m opened_up = rw opened_up

  emplacei_lem :
      (m : Master A) (xs : List ℕ) (val : A) (ptr : ℕ)
      → 1 < chunk_size
      → chunk_size < 2 ^ 32
      → Valid chunk_size m xs
      → ptr ≢ 0
      → Fresh ptr xs
      → m.cur ≢ ptr
      → Held (items m xs ++ val ∷ []) (emplacei chunk_size m val ptr).0
  emplacei_lem m xs val ptr two small v nz fresh other = elim (Bool-cases (m.next == 0)) [
    | inl empty ↦
        subst (λ r. Held (items m xs ++ val ∷ []) r.0) (sym (emplacei_first m val ptr empty))
          (
            xs,
            first-Valid chunk_size m xs val ptr two small v fresh other,
            first-items chunk_size m xs val ptr (ground arith) nz fresh,
          )
    | inr opened_up ↦
        let used : m.next ≢ 0 = ground arith in
        let more =
          written-items chunk_size m xs (emplace_back chunk_size (m.chunk m.next) val).0 val used
            (v.next_fresh used) (emplace_back-datac chunk_size (m.chunk m.next) val) in
        elim (Bool-cases (emplace_back chunk_size (m.chunk m.next) val).1) [
          | inl full ↦
              let (valid, same) = full-Valid chunk_size small m xs v val used in
              subst (λ r. Held (items m xs ++ val ∷ []) r.0)
                (sym (emplacei-full m val ptr opened_up full))
                (xs ++ m.next ∷ [], valid, same ∙ more)
          | inr room ↦
              subst (λ r. Held (items m xs ++ val ∷ []) r.0)
                (sym (emplacei_room m val ptr opened_up room))
                (xs, stay-Valid chunk_size small m xs v val used room, more)
        ]
  ]

  push_next_lem :
      (m : Master A) (xs : List ℕ)
      → Valid chunk_size m xs
      → Held (items m xs) (push_next m).0 × ((push_next m).0.next ≡ 0)
  unfolding push_next
  push_next_lem m xs v = elim (Bool-cases (m.next == 0)) [
    | inl empty ↦
        subst (λ r. Held (items m xs) r.0 × (r.0.next ≡ 0)) (sym (push_next_none m empty))
          ((xs, v, refl), ground arith)
    | inr opened_up ↦
        let used : m.next ≢ 0 = ground arith in
        let (valid, same) =
          push_chunk-Valid chunk_size m xs v.holds v.rings used (v.next_fresh used)
            (v.next_ring used) v.cur_fresh in
        subst (λ r. Held (items m xs) r.0 × (r.0.next ≡ 0)) (sym (push_next_some m opened_up))
          ((xs ++ m.next ∷ [], valid, same), refl)
  ]

  -- `delChunk` of the chunk in hand does not touch what can still be taken.
  del_chunk-Valid :
      (m : Master A) (xs : List ℕ)
      → Valid chunk_size m xs
      → Valid chunk_size (del_chunk m) xs × (items (del_chunk m) xs ≡ items m xs)
  del_chunk-Valid m xs v = elim (Bool-cases (m.cur == 0)) [
    | inl none_held ↦ rw none_held (v, refl)
    | inr held ↦
        let nz : m.cur ≢ 0 = ground arith in
        let (fresh, apart) = v.cur_fresh nz in
        let kept = store_other m.chunk m.cur (clear (m.chunk m.cur)) m.next (λ e. apart (sym e)) in
        rw held (
          record {
            holds = v.holds;
            rings =
                AllRings-store chunk_size m.chunk m.cur (clear (m.chunk m.cur)) xs fresh v.rings;
            next_fresh = v.next_fresh;
            next_ring = λ ne. subst (IsRing chunk_size) (sym kept) (v.next_ring ne);
            next_room = λ ne. subst (λ r. r.count < chunk_size) (sym kept) (v.next_room ne);
            cur_fresh = v.cur_fresh;
          },
          rw (contents-store m.chunk m.cur (clear (m.chunk m.cur)) xs fresh, kept) refl,
        )
  ]

  -- What a thread gets by `pop` and what is left.
  pub record Popped (m : Master A) (xs : List ℕ) (r : Master A × ℕ) : Type ℓ where
    pub rest : List ℕ
    pub valid : Valid chunk_size r.0 rest
    pub split : items m xs ≡ opened r.0.chunk r.1 ++ items r.0 rest
    pub in_hand : r.0.cur ≡ r.1
    pub ring : r.1 ≢ 0 → IsRing chunk_size (r.0.chunk r.1)
    pub none_left : r.1 ≡ 0 → items m xs ≡ []

  pop_lem : (m : Master A) (xs : List ℕ) → Valid chunk_size m xs → Popped m xs (pop m)
  unfolding pop
  pop_lem m [] v =
      let (d, same) = del_chunk-Valid m [] v in
      let gone = pop2-nil m.q v.holds in
      rw gone (record {
        rest = [];
        valid = record {
          holds = record { chain = v.holds.chain; tail_at = v.holds.tail_at };
          rings = tt;
          next_fresh = λ ne. tt;
          next_ring = λ ne. absurd (ne refl);
          next_room = λ ne. absurd (ne refl);
          cur_fresh = λ ne. (tt, ne);
        };
        split = sym same ∙ sym (append-nil (items (del_chunk m) []));
        in_hand = refl;
        ring = d.next_ring;
        none_left = λ e. rw e refl;
      })
  pop_lem m (x ∷ xs) v =
      let (d, same) = del_chunk-Valid m (x ∷ xs) v in
      let (at_x, holds, state) = pop2-cons m.q x xs v.holds in
      let some : ((pop2 m.q).1 == 0) ≡ false = let (_, nz, _, _) = v.holds.chain in ground arith in
      rw some (record {
        rest = xs;
        valid = record {
          holds = holds;
          rings = d.rings.1;
          next_fresh = λ ne. (v.next_fresh ne).1;
          next_ring = d.next_ring;
          next_room = d.next_room;
          cur_fresh = λ ne.
              subst (λ t. Fresh t xs × (t ≢ m.next)) (sym at_x)
                (
                  (let (_, _, fresh, _) = v.holds.chain in fresh),
                  (λ e. (v.next_fresh (λ z. ne (at_x ∙ e ∙ z))).0 (sym e)),
                );
        };
        split =
            sym same
            ∙ append_assoc ((del_chunk m).chunk x).datac (contents (del_chunk m).chunk xs)
                (opened (del_chunk m).chunk m.next)
            ∙ ap (λ t. t ++ items (del_chunk m) xs)
                (sym (
                    opened_at chunk_size (del_chunk m).chunk x
                      (let (_, nz, _, _) = v.holds.chain in nz))
                  ∙ ap (opened (del_chunk m).chunk) (sym at_x));
        in_hand = refl;
        ring = λ _. subst (λ t. IsRing chunk_size ((del_chunk m).chunk t)) (sym at_x) d.rings.0;
        none_left = λ e. absurd (ground arith);
      })

  -- On a partition queue in a well-formed state, with chunks of at least two slots and an allocator
  -- that answers with an address not in use: `push` adds its item behind all others; `pushNext`
  -- keeps the items and leaves no open chunk; and `pop` gives a chunk, neither empty nor over its
  -- size, with the first items in order, and leaves the others, or null only if there are none. The
  -- state is well-formed after each.
  pub partition_fifo :
      (m : Master A) (xs : List ℕ) (val : A) (ptr : ℕ)
      → 1 < chunk_size
      → chunk_size < 2 ^ 32
      → Valid chunk_size m xs
      → ptr ≢ 0
      → Fresh ptr xs
      → m.cur ≢ ptr
      → Held (items m xs ++ val ∷ []) (emplacei chunk_size m val ptr).0
        × (Held (items m xs) (push_next m).0 × ((push_next m).0.next ≡ 0))
        × Popped m xs (pop m)
  partition_fifo m xs val ptr two small v nz fresh other =
      (emplacei_lem m xs val ptr two small v nz fresh other, push_next_lem m xs v, pop_lem m xs v)
