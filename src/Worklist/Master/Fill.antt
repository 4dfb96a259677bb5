-- ===== src/Worklist/Master/Fill.antt =====
-- Where `push` of `ChunkMaster` (libcoro/include/galois/worklists/Chunk.h) puts an item.
use corograph.Worklist.Sockets.Scan.{AllHold}
use corograph.Worklist.Master.{Master, emplacei}
use corograph.Base.{ℕ, ◌≡◌, ◌⊎◌, List, [], ◌∷◌, ◌++◌, get_or, set}

module _ {ℓ} {A : Type ℓ} (chunk_size : ℕ) (m : Master A) (socket t : ℕ) (val : A) (ptr : ℕ) where
  abbrev after : Master A
  after = emplacei chunk_size m socket t val ptr

  -- Where the item is: at the end of the chunk that the thread has open; or in that chunk, now full
  -- and the youngest of its queue, with no chunk open; or alone in a new open chunk.
  abbrev pub Filed : (xss : List (List ℕ)) → Type ℓ
  Filed xss =
      ((after.next t ≡ m.next t)
        × AllHold after.queues xss
        × ((after.chunk (m.next t)).datac ≡ (m.chunk (m.next t)).datac ++ val ∷ []))
      ⊎ (((after.next t ≡ 0)
            × AllHold after.queues (set xss socket (get_or xss socket [] ++ m.next t ∷ []))
            × ((after.chunk (m.next t)).datac ≡ (m.chunk (m.next t)).datac ++ val ∷ []))
          ⊎ ((after.next t ≡ ptr)
              × AllHold after.queues xss
              × ((after.chunk ptr).datac ≡ val ∷ [])))
