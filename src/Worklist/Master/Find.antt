-- ===== src/Worklist/Master/Find.antt =====
-- What `pop2` of libcoro/include/galois/worklists/Chunk.h finds.
use corograph.Worklist.LinkedQueue.{Queue}
use corograph.Worklist.Sockets.{pop_part}
use corograph.Worklist.Sockets.Scan.{AllHold, Taken, pop_part_finds}
use corograph.Worklist.Master.{Master, pop_chunk, del_cur, pop2}
use corograph.Base.{
  ℕ, suc, ◌<◌, ◌≡◌, ◌≢◌, ◌⊎◌, refl, ap, false, not, inl, inr, List, [], ◌∷◌, ◌==◌, arith,
  Bool-cases, length, get_or, update, update_same,
}

pub AllHold-length :
    (qs : List Queue) (xss : List (List ℕ)) → AllHold qs xss → length qs ≡ length xss
AllHold-length [] [] h = refl
AllHold-length [] (xs ∷ xss) h = elim h [ ]
AllHold-length (q ∷ qs) [] h = elim h [ ]
AllHold-length (q ∷ qs) (xs ∷ xss) h = ap suc (AllHold-length qs xss h.1)

module _ {ℓ} {A : Type ℓ} where
  -- The queues are well-formed, and the thread has one.
  abbrev pub Good : (t : ℕ) → Master A → Type 0
  Good t m = (xss : List (List ℕ)) × AllHold m.queues xss × (t < length m.queues)

  -- There is no chunk in any queue, and the thread has none open.
  abbrev pub Drained : (t : ℕ) → Master A → Type 0
  Drained t m =
      (xss : List (List ℕ)) × AllHold m.queues xss
      × ((j : ℕ) → j < length m.queues → get_or xss j [] ≡ [])
      × (m.next t ≡ 0)

  -- The branches of `pop2`.
  pop2-none :
      (m : Master A) (t : ℕ)
      → pop_part m.queues t ≡ (m.queues, 0)
      → pop2 m t ≡ (
        record (del_cur m t) {
          queues = m.queues;
          cur = update m.cur t (m.next t);
          next = update m.next t 0;
        },
        m.next t,
      )
  unfolding pop2 pop_chunk
  pop2-none m t e = rw e refl

  pop2-some :
      (m : Master A) (t : ℕ)
      → (pop_part m.queues t).1 ≢ 0
      → pop2 m t ≡ (
        record (del_cur m t) {
          queues = (pop_part m.queues t).0;
          cur = update m.cur t (pop_part m.queues t).1;
        },
        (pop_part m.queues t).1,
      )
  unfolding pop2 pop_chunk
  pop2-some m t e = let f : ((pop_part m.queues t).1 == 0) ≡ false = ground arith in rw f refl

  del_cur_next : (m : Master A) (t : ℕ) → (del_cur m t).next ≡ m.next
  unfolding del_cur
  del_cur_next m t = elim (Bool-cases (not (m.cur t == 0))) [
    | inl e ↦ rw e refl
    | inr e ↦ rw e refl
  ]

  pub pop2_finds :
      (m : Master A) (t : ℕ)
      → (xss : List (List ℕ)) → AllHold m.queues xss
      → t < length m.queues
      → ((pop2 m t).0.cur t ≡ (pop2 m t).1)
        × (((pop2 m t).1 ≢ 0) × Taken xss ((pop2 m t).0.queues, (pop2 m t).1)
            ⊎ (((j : ℕ) → j < length m.queues → get_or xss j [] ≡ [])
                × ((pop2 m t).1 ≡ m.next t)
                × ((pop2 m t).0.queues ≡ m.queues)
                × ((pop2 m t).0.next t ≡ 0)))
  pop2_finds m t xss all small = elim (pop_part_finds m.queues xss t all small) [
    | inl (empty, same) ↦
        rw (pop2-none m t same)
          (update_same m.cur t (m.next t), inr (empty, refl, refl, update_same m.next t 0))
    | inr taken ↦
        rw (pop2-some m t taken.not_null)
          (update_same m.cur t (pop_part m.queues t).1, inl (taken.not_null, taken))
  ]
