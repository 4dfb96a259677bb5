-- ===== src/Worklist/Obim/Follow.antt =====
-- The map of every thread of libcoro/include/galois/worklists/Obim.h is a first part of the log.
use corograph.Base.{
  ℕ, zero, suc, ◌+◌, ◌≡◌, refl, sym, ap, ◌∙◌, subst, true, List, [], ◌∷◌, ◌++◌, Option, none, some,
  ◌==◌, if◌then◌else◌, ◌≤◌, length, length-append, take, drop, take-append-drop, update,
  update_same, arith, Bool-cases, inl, inr,
}
use corograph.FlatMap.{assign}
use corograph.FlatMap.Spec.{lookup, IsSorted}
use corograph.FlatMap.Lookup.{lookup-assign, assign-IsSorted}
use corograph.Worklist.Obim.{Bags, no_bags, replay, update_local, create}
use corograph.Worklist.Obim.Log.{
  IsLog, lookup_last, lookup_new, lookup_kept, IsLog-append, replay-lem,
}

pub take_all : (xs : List (ℕ × ℕ)) → take (length xs) xs ≡ xs
take_all [] = refl
take_all (x ∷ xs) = ap (λ t. x ∷ t) (take_all xs)

take_first : (n : ℕ) (xs ys : List (ℕ × ℕ)) → n ≤ length xs → take n (xs ++ ys) ≡ take n xs
take_first zero xs ys low = refl
take_first (suc n) [] ys low = absurd (omega arith)
take_first (suc n) (x ∷ xs) ys low = ap (λ t. x ∷ t) (take_first n xs ys (omega arith))

pub lookup_first :
    (n : ℕ) (log : List (ℕ × ℕ)) (j bag : ℕ)
    → lookup (take n log) j ≡ some bag
    → lookup log j ≡ some bag
lookup_first zero log j bag e = absurd (ground arith)
lookup_first (suc n) [] j bag e = e
lookup_first (suc n) ((key, v) ∷ log) j bag e = elim (Bool-cases (key == j)) [
  | inl here ↦ rw here (rw here at e)
  | inr other ↦ rw other (lookup_first n log j bag (rw other at e))
]

-- The map of the thread is the first part of the log.
pub record Follows (log local : List (ℕ × ℕ)) (version : ℕ) : Type 0 where
  pub sorted : IsSorted local
  pub behind : version ≤ length log
  pub agrees : (j : ℕ) → lookup local j ≡ lookup (take version log) j

pub record Inv (s : Bags) : Type 0 where
  pub log : IsLog s.master_log
  pub follows : (t : ℕ) → Follows s.master_log (s.local t) (s.last_master_version t)

pub start-Inv : Inv no_bags
unfolding no_bags
start-Inv = record {
  log = tt;
  follows = λ t. record { sorted = tt; behind = omega arith; agrees = λ j. refl };
}

pub update_local-Follows :
    (s : Bags) (t : ℕ)
    → Inv s
    → Follows s.master_log
        (replay (s.local t) (drop (s.last_master_version t) s.master_log))
        (length s.master_log)
update_local-Follows s t inv =
    let f = inv.follows t in
    let v = s.last_master_version t in
    let whole = take-append-drop v s.master_log in
    let (sorted, agrees) =
      replay-lem (take v s.master_log) (drop v s.master_log) (s.local t)
        (subst IsLog (sym whole) inv.log) f.sorted f.agrees in
    record {
      sorted = sorted;
      behind = omega arith;
      agrees = λ j. agrees j ∙ ap (λ l. lookup l j) (whole ∙ sym (take_all s.master_log));
    }

update-Follows :
    (log : List (ℕ × ℕ)) (loc : ℕ → List (ℕ × ℕ)) (version : ℕ → ℕ) (t : ℕ) (new : List (ℕ × ℕ))
    (seen : ℕ)
    → ((u : ℕ) → Follows log (loc u) (version u))
    → Follows log new seen
    → (u : ℕ) → Follows log (update loc t new u) (update version t seen u)
update-Follows log loc version t new seen all f u = elim (Bool-cases (u == t)) [
  | inl here ↦ rw here f
  | inr other ↦ rw other (all u)
]

pub update_local-Inv : (s : Bags) (t : ℕ) → Inv s → Inv (update_local s t)
unfolding update_local
update_local-Inv s t inv = record {
  log = inv.log;
  follows =
      update-Follows s.master_log s.local s.last_master_version t
        (replay (s.local t) (drop (s.last_master_version t) s.master_log)) (length s.master_log)
        inv.follows (update_local-Follows s t inv);
}

-- A thread that has seen the whole log creates a bag.
create-Follows :
    (log local : List (ℕ × ℕ)) (i ptr : ℕ)
    → lookup log i ≡ none
    → IsSorted local
    → ((j : ℕ) → lookup local j ≡ lookup log j)
    → Follows (log ++ (i, ptr) ∷ []) (assign 0 local i ptr) (length log + 1)
create-Follows log local i ptr absent sorted agrees =
    let size : length log + 1 ≡ length (log ++ (i, ptr) ∷ []) =
      sym (length-append log ((i, ptr) ∷ [])) in
    record {
      sorted = assign-IsSorted 0 ptr local i sorted;
      behind = omega (arith, size);
      agrees = λ j.
          lookup-assign 0 ptr local i j sorted
          ∙ ap (λ t. if i == j then some ptr else t) (agrees j)
          ∙ sym (lookup_last log i ptr j absent)
          ∙ ap (λ l. lookup l j)
              (sym
                (ap (λ n. take n (log ++ (i, ptr) ∷ [])) size ∙ take_all (log ++ (i, ptr) ∷ [])));
    }

more-Follows :
    (log local : List (ℕ × ℕ)) (version i ptr : ℕ)
    → Follows log local version
    → Follows (log ++ (i, ptr) ∷ []) local version
more-Follows log local version i ptr f = record {
  sorted = f.sorted;
  behind = omega (arith, f.behind, length-append log ((i, ptr) ∷ []));
  agrees = λ j.
      f.agrees j ∙ ap (λ l. lookup l j) (sym (take_first version log ((i, ptr) ∷ []) f.behind));
}

-- What `updateLocalOrCreate` gives: the bag that the log and the thread then have for the priority;
-- and every bag that the log had is still there.
pub record Asked (s : Bags) (t : ℕ) (i : ℕ) (result : Bags × ℕ) : Type 0 where
  pub in_log : lookup result.0.master_log i ≡ some result.1
  pub in_local : lookup (result.0.local t) i ≡ some result.1
  pub kept :
      (j bag : ℕ) → lookup s.master_log j ≡ some bag → lookup result.0.master_log j ≡ some bag
  pub local_kept :
      (j bag : ℕ) → lookup (s.local t) j ≡ some bag → lookup (result.0.local t) j ≡ some bag

if_same : (i : ℕ) (a b : Option ℕ) → (if i == i then a else b) ≡ a
if_same i a b = let here : (i == i) ≡ true = ground arith in rw here refl

pub create-Asked :
    (s : Bags) (t i ptr : ℕ)
    → Inv s
    → s.last_master_version t ≡ length s.master_log
    → lookup (s.local t) i ≡ none
    → Inv (create s t i ptr) × Asked s t i (create s t i ptr, ptr)
create-Asked s t i ptr inv seen none_local =
    let f = inv.follows t in
    let agrees : (j : ℕ) → lookup (s.local t) j ≡ lookup s.master_log j = λ j.
      f.agrees j
      ∙ ap (λ n. lookup (take n s.master_log) j) seen
      ∙ ap (λ l. lookup l j) (take_all s.master_log) in
    let absent : lookup s.master_log i ≡ none = sym (agrees i) ∙ none_local in
    (
      record {
        log = IsLog-append s.master_log i ptr inv.log absent;
        follows =
            update-Follows (s.master_log ++ (i, ptr) ∷ []) s.local s.last_master_version t
              (assign 0 (s.local t) i ptr) (length s.master_log + 1)
              (λ u.
                more-Follows s.master_log (s.local u) (s.last_master_version u) i ptr
                  (inv.follows u))
              (create-Follows s.master_log (s.local t) i ptr absent f.sorted agrees);
      },
      record {
        in_log = lookup_new s.master_log i ptr absent;
        in_local =
            ap (λ l. lookup l i) (update_same s.local t (assign 0 (s.local t) i ptr))
            ∙ lookup-assign 0 ptr (s.local t) i i f.sorted
            ∙ if_same i (some ptr) (lookup (s.local t) i);
        kept = λ j bag e. lookup_kept s.master_log i ptr j bag absent e;
        local_kept = λ j bag e.
            ap (λ l. lookup l j) (update_same s.local t (assign 0 (s.local t) i ptr))
            ∙ lookup-assign 0 ptr (s.local t) i j f.sorted
            ∙ ap (λ r. if i == j then some ptr else r) (agrees j)
            ∙ sym (lookup_last s.master_log i ptr j absent)
            ∙ lookup_kept s.master_log i ptr j bag absent (sym (agrees j) ∙ e);
      },
    )
