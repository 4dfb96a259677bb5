-- ===== src/Worklist/Obim/Push.antt =====
-- `push` of libcoro/include/galois/worklists/Obim.h, up to the bag that it pushes the item into.
use corograph.Base.{
  ℕ, ◌≡◌, ◌≢◌, refl, sym, ap, ◌∙◌, subst, Bool, true, false, not, ◌&&◌, some, ◌==◌, if◌then◌else◌,
  ◌≤◌, ltb, arith, Bool-cases, inl, inr,
}
use corograph.FlatMap.Spec.{lookup}
use corograph.Worklist.Obim.{Bags, update_local_or_create, Run}
use corograph.Worklist.Obim.Follow.{Asked}
use corograph.Worklist.Obim.Agree.{Asked-Inv, Run-Inv, local-log}

-- `curIndex`, `scanStart` and `current` of a thread.
pub record ThreadData : Type 0 where
  pub cur_index : ℕ
  pub scan_start : ℕ
  pub current : ℕ

-- `if (compare(index, p.scanStart)) …` and `if (compare(index, p.curIndex)) …`.
abbrev pub lower_to : ThreadData → ℕ → ℕ → ThreadData
lower_to p index c =
    let scanned = if ltb index p.scan_start then record p { scan_start = index } else p in
    if ltb index p.cur_index then record scanned { cur_index = index; current = c } else scanned

-- `push` by the thread `t` of an item with the priority `index`: the bags, the thread, and the bag
-- that gets the item.
unfoldable pub push : Bags → ℕ → ThreadData → ℕ → ℕ → Bags × ThreadData × ℕ
push s t p index ptr =
    let (made, c) = update_local_or_create s t index ptr in
    if (index == p.cur_index) && not (p.current == 0)
    then (s, p, p.current)
    else (made, lower_to p index c, c)

-- The scan of the thread starts at its current priority, and `current` is the bag of that.
pub record Current (s : Bags) (t : ℕ) (p : ThreadData) : Type 0 where
  pub together : p.scan_start ≡ p.cur_index
  pub bag : p.current ≢ 0 → lookup (s.local t) p.cur_index ≡ some p.current

-- What `push` has to achieve for the item.
pub record Pushed (t : ℕ) (index : ℕ) (result : Bags × ThreadData × ℕ) : Type 0 where
  pub in_bag : lookup result.0.master_log index ≡ some result.2
  pub in_reach : result.1.scan_start ≤ index
  pub known_bag : lookup (result.0.local t) index ≡ some result.2
  pub current : Current result.0 t result.1

lower_to-Current :
    (s : Bags) (t : ℕ) (p : ThreadData) (index ptr : ℕ) (r : Bags × ℕ)
    → Current s t p
    → Asked s t index r
    → Current r.0 t (lower_to p index r.1) × ((lower_to p index r.1).scan_start ≤ index)
lower_to-Current s t p index ptr r c a = elim (Bool-cases (ltb index p.cur_index)) [
  | inl lower ↦
      let scan_lower : ltb index p.scan_start ≡ true = ap (λ n. ltb index n) c.together ∙ lower in
      rw (lower, scan_lower) (record { together = refl; bag = λ _. a.in_local }, omega arith)
  | inr not_lower ↦
      let scan_not : ltb index p.scan_start ≡ false =
        ap (λ n. ltb index n) c.together ∙ not_lower in
      rw (not_lower, scan_not)
        (
          record {
            together = c.together;
            bag = λ ne. a.local_kept p.cur_index p.current (c.bag ne);
          },
          ground arith,
        )
]

-- At any time, for a thread whose `current` is the bag of its current priority: `push` puts the item
-- into the bag that the log, and the thread, then have for its priority; the thread's scan then
-- starts at that priority or below; and `current` is still the bag of the current priority.
pub push_reaches :
    (s : Bags) (t : ℕ) (p : ThreadData) (index ptr : ℕ)
    → Run s
    → Current s t p
    → Pushed t index (push s t p index ptr)
unfolding push
push_reaches s t p index ptr r c =
    let (inv, a) = Asked-Inv s t index ptr (Run-Inv r) in
    elim (Bool-cases ((index == p.cur_index) && not (p.current == 0))) [
      | inl same ↦
          let (at_cur, there) = both (index == p.cur_index) (not (p.current == 0)) same in
          let held = held_at at_cur there in
          rw same (record {
            in_bag = local-log s t index p.current (Run-Inv r) held;
            in_reach = subst (λ n. n ≤ index) (sym c.together) (ground arith);
            known_bag = held;
            current = c;
          })
      | inr differs ↦
          let (now, low) =
            lower_to-Current s t p index ptr (update_local_or_create s t index ptr) c a in
          rw differs
            (record { in_bag = a.in_log; in_reach = low; known_bag = a.in_local; current = now })
    ]
  where
    both : (a b : Bool) → (a && b) ≡ true → (a ≡ true) × (b ≡ true)
    both true b e = (refl, e)
    both false b e = absurd (ground arith)

    held_at :
        (index == p.cur_index) ≡ true
        → not (p.current == 0) ≡ true
        → lookup (s.local t) index ≡ some p.current
    held_at at_cur there =
        let same : p.cur_index ≡ index = ground arith in
        subst (λ n. lookup (s.local t) n ≡ some p.current) same (c.bag (ground arith))
