-- ===== src/Worklist/Obim/Agree.antt =====
-- All threads of libcoro/include/galois/worklists/Obim.h use the same bag for a priority.
use corograph.Base.{
  ℕ, ◌≡◌, refl, sym, ap, ◌∙◌, none, some, length, take, update_same, Option-cases, inl, inr,
}
use corograph.FlatMap.Spec.{lookup}
use corograph.Worklist.Obim.{
  Bags, found, known, update_local, create, slow_update_local_or_create, update_local_or_create,
  Run, start, updates, asks,
}
use corograph.Worklist.Obim.Log.{found_lem}
use corograph.Worklist.Obim.Follow.{
  take_all, Inv, Asked, start-Inv, update_local-Inv, create-Asked, lookup_first,
}

slow_found :
    (s : Bags) (t i ptr bag : ℕ)
    → found ((update_local s t).local t) i ≡ some bag
    → slow_update_local_or_create s t i ptr ≡ (update_local s t, bag)
unfolding slow_update_local_or_create
slow_found s t i ptr bag e =
    ap (λ o. known o (update_local s t) (create (update_local s t) t i ptr, ptr)) e

slow_none :
    (s : Bags) (t i ptr : ℕ)
    → found ((update_local s t).local t) i ≡ none
    → slow_update_local_or_create s t i ptr ≡ (create (update_local s t) t i ptr, ptr)
unfolding slow_update_local_or_create
slow_none s t i ptr e =
    ap (λ o. known o (update_local s t) (create (update_local s t) t i ptr, ptr)) e

fast_found :
    (s : Bags) (t i ptr bag : ℕ)
    → found (s.local t) i ≡ some bag
    → update_local_or_create s t i ptr ≡ (s, bag)
unfolding update_local_or_create
fast_found s t i ptr bag e = ap (λ o. known o s (slow_update_local_or_create s t i ptr)) e

fast_none :
    (s : Bags) (t i ptr : ℕ)
    → found (s.local t) i ≡ none
    → update_local_or_create s t i ptr ≡ slow_update_local_or_create s t i ptr
unfolding update_local_or_create
fast_none s t i ptr e = ap (λ o. known o s (slow_update_local_or_create s t i ptr)) e

-- A bag that a thread finds is that of the log.
pub local-log :
    (s : Bags) (t j bag : ℕ)
    → Inv s
    → lookup (s.local t) j ≡ some bag
    → lookup s.master_log j ≡ some bag
local-log s t j bag inv e =
    let f = inv.follows t in
    lookup_first (s.last_master_version t) s.master_log j bag (sym (f.agrees j) ∙ e)

found-Asked :
    (s : Bags) (t i bag : ℕ) → Inv s → found (s.local t) i ≡ some bag → Asked s t i (s, bag)
found-Asked s t i bag inv e =
    let held = sym (found_lem (s.local t) i ((inv.follows t).sorted)) ∙ e in
    record {
      in_log = local-log s t i bag inv held;
      in_local = held;
      kept = λ j b there. there;
      local_kept = λ j b there. there;
    }

pub update_local_frame :
    (s : Bags) (t : ℕ)
    → ((update_local s t).master_log ≡ s.master_log)
      × ((update_local s t).last_master_version t ≡ length s.master_log)
unfolding update_local
update_local_frame s t = (refl, update_same s.last_master_version t (length s.master_log))

-- `updateLocal` forgets no bag of the thread.
update_local-kept :
    (s : Bags) (t j bag : ℕ)
    → Inv s
    → lookup (s.local t) j ≡ some bag
    → lookup ((update_local s t).local t) j ≡ some bag
update_local-kept s t j bag inv e =
    let now = (update_local-Inv s t inv).follows t in
    let (same_log, seen) = update_local_frame s t in
    now.agrees j
    ∙ ap (λ n. lookup (take n (update_local s t).master_log) j) (seen ∙ ap length (sym same_log))
    ∙ ap (λ l. lookup l j) (take_all (update_local s t).master_log ∙ same_log)
    ∙ local-log s t j bag inv e

after_update :
    (s : Bags) (t i : ℕ) (r : Bags × ℕ) → Inv s → Asked (update_local s t) t i r → Asked s t i r
after_update s t i r inv a = record {
  in_log = a.in_log;
  in_local = a.in_local;
  kept = λ j bag e. a.kept j bag (ap (λ l. lookup l j) (update_local_frame s t).0 ∙ e);
  local_kept = λ j bag e. a.local_kept j bag (update_local-kept s t j bag inv e);
}

slow-Asked :
    (s : Bags) (t i ptr : ℕ)
    → Inv s
    → Inv (slow_update_local_or_create s t i ptr).0
      × Asked s t i (slow_update_local_or_create s t i ptr)
slow-Asked s t i ptr inv =
    let now = update_local-Inv s t inv in
    let (same_log, seen) = update_local_frame s t in
    elim (Option-cases (found ((update_local s t).local t) i)) [
      | inl e ↦
          let none_local =
            sym (found_lem ((update_local s t).local t) i ((now.follows t).sorted)) ∙ e in
          let (inv_new, asked) =
            create-Asked (update_local s t) t i ptr now (seen ∙ ap length (sym same_log))
              none_local in
          rw (slow_none s t i ptr e) (inv_new, after_update s t i _ inv asked)
      | inr (bag, e) ↦
          rw (slow_found s t i ptr bag e)
            (now, after_update s t i _ inv (found-Asked (update_local s t) t i bag now e))
    ]

pub Asked-Inv :
    (s : Bags) (t i ptr : ℕ)
    → Inv s
    → Inv (update_local_or_create s t i ptr).0 × Asked s t i (update_local_or_create s t i ptr)
Asked-Inv s t i ptr inv = elim (Option-cases (found (s.local t) i)) [
  | inl e ↦ rw (fast_none s t i ptr e) (slow-Asked s t i ptr inv)
  | inr (bag, e) ↦ rw (fast_found s t i ptr bag e) (inv, found-Asked s t i bag inv e)
]

pub Run-Inv : {s : Bags} → Run s → Inv s
Run-Inv start = start-Inv
Run-Inv (updates {s} t r) = update_local-Inv s t (Run-Inv r)
Run-Inv (asks {s} t i ptr r) = (Asked-Inv s t i ptr (Run-Inv r)).0

-- At any time, two threads that find a bag for a priority find the same one. What
-- `updateLocalOrCreate` gives to a thread is the bag that the log, and the thread, then have for the
-- priority; and no bag that the log had is lost or replaced.
pub bag_agreed :
    (s : Bags) (t u i ptr : ℕ)
    → Run s
    → ((j c d : ℕ)
        → lookup (s.local t) j ≡ some c
        → lookup (s.local u) j ≡ some d
        → some c ≡ some d)
      × Asked s t i (update_local_or_create s t i ptr)
bag_agreed s t u i ptr r =
    let inv = Run-Inv r in
    (
      (λ j c d at_t at_u. sym (local-log s t j c inv at_t) ∙ local-log s u j d inv at_u),
      (Asked-Inv s t i ptr inv).1,
    )
