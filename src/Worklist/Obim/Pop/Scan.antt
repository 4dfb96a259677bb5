-- ===== src/Worklist/Obim/Pop/Scan.antt =====
-- The scan of libcoro/include/galois/worklists/Obim.h over the bags, from what a bag promises.
use corograph.FlatMap.{lower_bound}
use corograph.FlatMap.Spec.{lookup, Above, Above-less, IsSorted, lookup-Above}
use corograph.Worklist.Obim.{Bags, Run, update_local}
use corograph.Worklist.Obim.Push.{ThreadData}
use corograph.Worklist.Obim.Follow.{Inv, take_all, update_local-Inv}
use corograph.Worklist.Obim.Agree.{Run-Inv, update_local_frame}
use corograph.Worklist.Obim.Pop.{Obim, Pool, scan_from, pop_entries, settle, slow_pop2}
use corograph.Base.{
  ℕ, zero, suc, ◌≤◌, ◌<◌, ◌≡◌, ◌≢◌, ◌⊎◌, ◌∙◌, refl, sym, ap, subst, true, false, inl, inr, List, [],
  ◌∷◌, Option, none, some, ltb, ◌==◌, arith, Bool-cases, drop, take, length, update, update_same,
  ltb→lt, ltb→le,
}

-- What the `pop2` of a bag promises a thread: a bag stays good; once it answers null, it is drained
-- for the thread; and it stays drained.
pub record BagLaws {C : Type 0} (bag_pop2 : C → (t : ℕ) → C × ℕ) (Good Drained : C → Type 0) (t : ℕ)
    : Type 0 where
  pub good : (c : C) → Good c → Good (bag_pop2 c t).0
  pub drains : (c : C) → Good c → (bag_pop2 c t).1 ≡ 0 → Drained (bag_pop2 c t).0
  pub stays : (c : C) → Good c → Drained c → Drained (bag_pop2 c t).0

-- The entries from a priority on are those with the priority or a higher one.
pub lookup-drop :
    (entries : List (ℕ × ℕ)) (ms k : ℕ)
    → ms ≤ k
    → lookup (drop (lower_bound entries ms) entries) k ≡ lookup entries k
unfolding lower_bound
lookup-drop [] ms k h = refl
lookup-drop ((key, v) ∷ entries) ms k h = elim (Bool-cases (ltb key ms)) [
  | inl e ↦
      let other : (key == k) ≡ false = let l = ltb→lt key ms e in ground arith in
      rw (e, other) (lookup-drop entries ms k h)
  | inr e ↦ rw e refl
]

drop-IsSorted : (n : ℕ) (entries : List (ℕ × ℕ)) → IsSorted entries → IsSorted (drop n entries)
drop-IsSorted zero entries h = h
drop-IsSorted (suc n) [] h = h
drop-IsSorted (suc n) (x ∷ entries) h = drop-IsSorted n entries h.1

-- All keys are at least `ms`.
abbrev AtLeast : ℕ → List (ℕ × ℕ) → Type 0
AtLeast ms [] = Unit {0}
AtLeast ms (x ∷ entries) = (ms ≤ x.0) × AtLeast ms entries

Above-AtLeast : (ms k : ℕ) (entries : List (ℕ × ℕ)) → ms ≤ k → Above k entries → AtLeast ms entries
Above-AtLeast ms k [] h a = tt
Above-AtLeast ms k (x ∷ entries) h a = (omega arith, Above-AtLeast ms k entries h a.1)

drop-AtLeast :
    (entries : List (ℕ × ℕ)) (ms : ℕ)
    → IsSorted entries
    → AtLeast ms (drop (lower_bound entries ms) entries)
unfolding lower_bound
drop-AtLeast [] ms h = tt
drop-AtLeast ((key, v) ∷ entries) ms h = elim (Bool-cases (ltb key ms)) [
  | inl e ↦ rw e (drop-AtLeast entries ms h.1)
  | inr e ↦ rw e (ltb→le key ms e, Above-AtLeast ms key entries (ltb→le key ms e) h.0)
]

first_or_later :
    (index bag j b : ℕ) (entries : List (ℕ × ℕ))
    → lookup ((index, bag) ∷ entries) j ≡ some b
    → (bag ≡ b) ⊎ (lookup entries j ≡ some b)
first_or_later index bag j b entries e = elim (Bool-cases (index == j)) [
  | inl h ↦ let g = rw h at e in inl (ground arith)
  | inr h ↦ inr (rw h at e)
]

lookup-AtLeast :
    (ms j b : ℕ) (entries : List (ℕ × ℕ)) → AtLeast ms entries → lookup entries j ≡ some b → ms ≤ j
lookup-AtLeast ms j b [] h e = absurd (ground arith)
lookup-AtLeast ms j b ((key, v) ∷ entries) h e = elim (Bool-cases (key == j)) [
  | inl q ↦ let r : key ≡ j = ground arith in omega (arith, h.0)
  | inr q ↦ lookup-AtLeast ms j b entries h.1 (rw q at e)
]

-- After `updateLocal` the map of the thread has the bags of the log.
local_after :
    (s : Bags) (t : ℕ)
    → Inv s
    → IsSorted ((update_local s t).local t)
      × ((j : ℕ) → lookup ((update_local s t).local t) j ≡ lookup s.master_log j)
local_after s t inv =
    let now = (update_local-Inv s t inv).follows t in
    let (same_log, seen) = update_local_frame s t in
    (
      now.sorted,
      λ j.
          now.agrees j
          ∙ ap (λ n. lookup (take n (update_local s t).master_log) j)
              (seen ∙ ap length (sym same_log))
          ∙ ap (λ l. lookup l j) (take_all (update_local s t).master_log ∙ same_log),
    )

module _ {C : Type 0} {bag_pop2 : C → (t : ℕ) → C × ℕ} {Good Drained : C → Type 0} {t : ℕ}
    (laws : BagLaws bag_pop2 Good Drained t) where
  popped-Good :
      (cs : ℕ → C) (bag : ℕ)
      → ((a : ℕ) → Good (cs a))
      → (a : ℕ) → Good (update cs bag (bag_pop2 (cs bag) t).0 a)
  popped-Good cs bag good a = elim (Bool-cases (a == bag)) [
    | inl e ↦ rw e (laws.good (cs bag) (good bag))
    | inr e ↦ rw e (good a)
  ]

  -- A pop of any bag leaves a drained bag drained.
  popped-Drained :
      (cs : ℕ → C) (bag a : ℕ)
      → ((a : ℕ) → Good (cs a))
      → Drained (cs a)
      → Drained (update cs bag (bag_pop2 (cs bag) t).0 a)
  popped-Drained cs bag a good d = elim (Bool-cases (a == bag)) [
    | inl e ↦
        let q : a ≡ bag = ground arith in
        rw e (laws.stays (cs bag) (good bag) (subst (λ b. Drained (cs b)) q d))
    | inr e ↦ rw e d
  ]

  -- What the scan finds.
  abbrev pub Finds : (entries : List (ℕ × ℕ)) → (ℕ → C) × Option (ℕ × ℕ × ℕ) → Type 0
  Finds entries (cs, none) = (j bag : ℕ) → lookup entries j ≡ some bag → Drained (cs bag)
  Finds entries (cs, some (index, bag, item)) =
      (item ≢ 0)
      × (lookup entries index ≡ some bag)
      × ((j b : ℕ) → j < index → lookup entries j ≡ some b → Drained (cs b))

  pop_entries-kept :
      (cs : ℕ → C) (entries : List (ℕ × ℕ)) (a : ℕ)
      → ((a : ℕ) → Good (cs a))
      → Drained (cs a)
      → Drained ((pop_entries bag_pop2 cs t entries).0 a)
  unfolding pop_entries
  pop_entries-kept cs [] a good d = d
  pop_entries-kept cs ((index, bag) ∷ entries) a good d =
      elim (Bool-cases ((bag_pop2 (cs bag) t).1 == 0)) [
        | inl e ↦ rw e (
            pop_entries-kept (update cs bag (bag_pop2 (cs bag) t).0) entries a
              (popped-Good cs bag good) (popped-Drained cs bag a good d))
        | inr e ↦ rw e (popped-Drained cs bag a good d)
      ]

  widened :
      (cs : ℕ → C) (index bag : ℕ) (entries : List (ℕ × ℕ))
      → IsSorted ((index, bag) ∷ entries)
      → (r : (ℕ → C) × Option (ℕ × ℕ × ℕ)) → Drained (r.0 bag)
      → Finds entries r
      → Finds ((index, bag) ∷ entries) r
  widened cs index bag entries sorted (cs', none) d f = λ j b e.
      elim (first_or_later index bag j b entries e) [
        | inl q ↦ subst (λ x. Drained (cs' x)) q d
        | inr later ↦ f j b later
      ]
  widened cs index bag entries sorted (cs', some (i, b, item)) d f = (
    f.0,
    elim (Bool-cases (index == i)) [
      | inl e ↦
          let q : index ≡ i = ground arith in
          absurd (
            let g = lookup-Above i entries (subst (λ k. Above k entries) q sorted.0) in
            let h = sym g ∙ f.1 in ground arith)
      | inr e ↦ rw e f.1
    ],
    λ j x h e. elim (first_or_later index bag j x entries e) [
      | inl q ↦ subst (λ y. Drained (cs' y)) q d
      | inr later ↦ f.2 j x h later
    ],
  )

  pop_entries-Finds :
      (cs : ℕ → C) (entries : List (ℕ × ℕ))
      → ((a : ℕ) → Good (cs a))
      → IsSorted entries
      → Finds entries (pop_entries bag_pop2 cs t entries)
  unfolding pop_entries
  pop_entries-Finds cs [] good sorted = λ j bag e. absurd (ground arith)
  pop_entries-Finds cs ((index, bag) ∷ entries) good sorted =
      elim (Bool-cases ((bag_pop2 (cs bag) t).1 == 0)) [
        | inl e ↦
            let z : (bag_pop2 (cs bag) t).1 ≡ 0 = ground arith in
            let cs' = update cs bag (bag_pop2 (cs bag) t).0 in
            let good' = popped-Good cs bag good in
            let now : Drained (cs' bag) =
              subst Drained (sym (update_same cs bag (bag_pop2 (cs bag) t).0))
                (laws.drains (cs bag) (good bag) z) in
            rw e (
              widened cs' index bag entries sorted (pop_entries bag_pop2 cs' t entries)
                (pop_entries-kept cs' entries bag good' now)
                (pop_entries-Finds cs' entries good' sorted.1))
        | inr e ↦
            let here : (index == index) ≡ true = ground arith in
            rw e (
              (λ z. ground arith),
              (rw here refl),
              (λ j b h f.
                  let other : (index == j) ≡ false = ground arith in
                  let g =
                    rw (other, lookup-Above j entries (Above-less j index entries h sorted.0)) at
                      f in
                  absurd (ground arith)),
            )
      ]

  -- What `slowPop2` achieves: it finds no chunk, and then all bags of the log from priority `ms` on
  -- are drained for the thread; or it finds one in the bag of a priority from `ms` on, all bags of
  -- the log between are drained for the thread, and the thread stays at this priority.
  abbrev pub Pops : (log : List (ℕ × ℕ)) (ms : ℕ) → Obim C × ℕ → Type 0
  Pops log ms (o, item) =
      ((item ≡ 0) × ((j bag : ℕ) → ms ≤ j → lookup log j ≡ some bag → Drained (o.containers bag)))
      ⊎ ((item ≢ 0)
          × (ms ≤ (o.threads t).cur_index)
          × ((o.threads t).scan_start ≡ (o.threads t).cur_index)
          × (lookup log (o.threads t).cur_index ≡ some (o.threads t).current)
          × ((j bag : ℕ)
              → ms ≤ j
              → j < (o.threads t).cur_index
              → lookup log j ≡ some bag
              → Drained (o.containers bag)))

  settle-Pops :
      (s : Bags) (threads : ℕ → ThreadData) (log entries : List (ℕ × ℕ)) (ms : ℕ)
      → ((j : ℕ) → ms ≤ j → lookup entries j ≡ lookup log j)
      → AtLeast ms entries
      → (r : (ℕ → C) × Option (ℕ × ℕ × ℕ)) → Finds entries r
      → Pops log ms (settle bag_pop2 s threads t r)
  unfolding settle
  settle-Pops s threads log entries ms same least (cs, none) f =
      inl (refl, λ j bag h e. f j bag (same j h ∙ e))
  settle-Pops s threads log entries ms same least (cs, some (index, bag, item)) f =
      let now =
        update_same threads t record { cur_index = index; scan_start = index; current = bag } in
      let low = lookup-AtLeast ms index bag entries least f.1 in
      rw now
        (inr (f.0, low, refl, sym (same index low) ∙ f.1, λ j b h p e. f.2 j b p (same j h ∙ e)))

  -- At any time, with bags that keep their promises: `slowPop2` starts its scan where `scan_from`
  -- says, and finds a chunk in the bag of the lowest priority from there on that is not drained for
  -- the thread, at which the thread then stays; or it finds none, and all these bags are drained.
  pub slow_pop2-Pops :
      (pool : Pool) (o : Obim C)
      → Run o.bags
      → ((bag : ℕ) → Good (o.containers bag))
      → Pops o.bags.master_log (scan_from pool o.threads t) (slow_pop2 bag_pop2 pool o t)
  unfolding slow_pop2
  slow_pop2-Pops pool o run good =
      let (sorted, same) = local_after o.bags t (Run-Inv run) in
      let ms = scan_from pool o.threads t in
      let local = (update_local o.bags t).local t in
      let entries = drop (lower_bound local ms) local in
      settle-Pops (update_local o.bags t) o.threads o.bags.master_log entries ms
        (λ j h. lookup-drop local ms j h ∙ same j) (drop-AtLeast local ms sorted)
        (pop_entries bag_pop2 o.containers t entries)
        (pop_entries-Finds o.containers entries good
          (drop-IsSorted (lower_bound local ms) local sorted))
