-- ===== src/Worklist/Obim/Pop/Bag.antt =====
-- The bags of libcoro/include/galois/worklists/Chunk.h keep the promises that the scan relies on.
use corograph.Worklist.LinkedQueue.{Queue}
use corograph.Worklist.Sockets.Scan.{AllHold, Taken}
use corograph.Worklist.Master.{Master}
use corograph.Worklist.Master
use corograph.Worklist.Master.Find.{Good, Drained, pop2_finds, AllHold-length}
use corograph.Worklist.Obim.Pop.{Obim, pop2}
use corograph.Worklist.Obim.Pop.Scan.{BagLaws, Pops}
use corograph.Base.{
  ℕ, zero, suc, ◌≤◌, ◌<◌, ◌≡◌, ◌≢◌, ◌⊎◌, ◌∙◌, refl, sym, inl, inr, List, [], ◌∷◌, arith, length,
  length-set, get_or, set, ltb, ltb→lt, ltb→le, Bool-cases,
}

beyond : (xss : List (List ℕ)) (i : ℕ) → length xss ≤ i → get_or xss i [] ≡ []
beyond [] i h = refl
beyond (xs ∷ xss) zero h = absurd (omega arith)
beyond (xs ∷ xss) (suc i) h = beyond xss i (omega arith)

nothing-Taken :
    {A : Type 0} (m : Master A) (xss : List (List ℕ))
    → AllHold m.queues xss
    → ((j : ℕ) → j < length m.queues → get_or xss j [] ≡ [])
    → (r : List Queue × ℕ) → Taken xss r
    → ⊥
nothing-Taken m xss all empty r taken =
    let l = AllHold-length m.queues xss all in
    elim (Bool-cases (ltb taken.i (length xss))) [
      | inl e ↦
          let h = ltb→lt taken.i (length xss) e in
          let f = sym (empty taken.i (omega arith)) ∙ taken.front in ground arith
      | inr e ↦
          let f = sym (beyond xss taken.i (ltb→le taken.i (length xss) e)) ∙ taken.front in
          ground arith
    ]

module _ {A : Type 0} (t : ℕ) where
  popped-Good : (m : Master A) → Good t m → Good t (Master.pop2 m t).0
  popped-Good m (xss, all, small) = elim (pop2_finds m t xss all small).1 [
    | inl (nz, taken) ↦
        let a = AllHold-length m.queues xss all in
        let b =
          AllHold-length (Master.pop2 m t).0.queues (set xss taken.i taken.rest) taken.holds in
        let c = length-set xss taken.i taken.rest in
        (set xss taken.i taken.rest, taken.holds, omega arith)
    | inr (empty, r, same, closed) ↦ rw same (xss, all, small)
  ]

  emptied-Drained :
      (m : Master A) → Good t m → (Master.pop2 m t).1 ≡ 0 → Drained t (Master.pop2 m t).0
  emptied-Drained m (xss, all, small) e = elim (pop2_finds m t xss all small).1 [
    | inl (nz, taken) ↦ absurd (nz e)
    | inr (empty, r, same, closed) ↦ rw same (xss, all, empty, closed)
  ]

  kept-Drained : (m : Master A) → Good t m → Drained t m → Drained t (Master.pop2 m t).0
  kept-Drained m (yss, ally, small) (xss, all, empty, closed) =
      elim (pop2_finds m t xss all small).1 [
        | inl (nz, taken) ↦ absurd (nothing-Taken m xss all empty _ taken)
        | inr (empty', r, same, closed') ↦ rw same (xss, all, empty, closed')
      ]

  pub master_laws : BagLaws (Master.pop2 {A = A}) (Good t) (Drained t) t
  master_laws = record { good = popped-Good; drains = emptied-Drained; stays = kept-Drained }

  -- What `pop2` of the work list achieves: it takes a chunk of the current bag, where the thread
  -- stays; or what the scan achieves.
  abbrev pub Served : (o : Obim (Master A)) (ms : ℕ) → Obim (Master A) × ℕ → Type 0
  Served o ms r =
      ((r.1 ≢ 0)
        × ((o.threads t).current ≢ 0)
        × (r.1 ≡ (Master.pop2 (o.containers (o.threads t).current) t).1)
        × (r.0.threads ≡ o.threads))
      ⊎ Pops master_laws o.bags.master_log ms r
