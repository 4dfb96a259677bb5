-- ===== src/Worklist/Obim/Log.antt =====
-- The log of libcoro/include/galois/worklists/Obim.h and its replay.
use corograph.Base.{
  ℕ, suc, ◌≡◌, ◌≢◌, refl, sym, ap, ◌∙◌, subst, true, false, List, [], ◌∷◌, ◌++◌, none, some, ◌==◌,
  if◌then◌else◌, ltb, length, arith, Bool-cases, inl, inr, append-nil, append_assoc,
}
use corograph.FlatMap.{assign, find, value_at, lower_bound, present}
use corograph.FlatMap.Spec.{lookup, IsSorted, Above-less, lookup-Above, order, less, same, more}
use corograph.FlatMap.Lookup.{swap_tests, lookup-assign, assign-IsSorted}
use corograph.Worklist.Obim.{found, replay}

-- No priority is twice in the log.
abbrev pub IsLog : List (ℕ × ℕ) → Type 0
IsLog [] = Unit {0}
IsLog (x ∷ log) = (lookup log x.0 ≡ none) × IsLog log

find_less :
    (key v k : ℕ) (local : List (ℕ × ℕ))
    → ltb key k ≡ true
    → find ((key, v) ∷ local) k ≡ suc (find local k)
unfolding find lower_bound
find_less key v k local lt = rw lt (elim (Bool-cases (present local (lower_bound local k) k)) [
  | inl held ↦ rw held refl
  | inr gone ↦ rw gone refl
])

find_same :
    (key v k : ℕ) (local : List (ℕ × ℕ))
    → ltb key k ≡ false
    → ltb k key ≡ false
    → find ((key, v) ∷ local) k ≡ 0
unfolding find lower_bound
find_same key v k local ge le = rw (ge, le, ge) refl

find_more :
    (key v k : ℕ) (local : List (ℕ × ℕ))
    → ltb key k ≡ false
    → ltb k key ≡ true
    → find ((key, v) ∷ local) k ≡ suc (length local)
unfolding find lower_bound
find_more key v k local ge lt = rw (ge, lt, ge) refl

value_at_end : (local : List (ℕ × ℕ)) → value_at local (length local) ≡ none
value_at_end [] = refl
value_at_end (x ∷ local) = value_at_end local

-- `find` gives the value of the key.
pub found_lem : (local : List (ℕ × ℕ)) (k : ℕ) → IsSorted local → found local k ≡ lookup local k
found_lem [] k s = refl
found_lem ((key, v) ∷ local) k s = elim (order key k) [
  | less lt ge ne _ ↦ rw (find_less key v k local lt, ne) (found_lem local k s.1)
  | same ge le eq _ ↦ rw (find_same key v k local ge le, eq) refl
  | more ge lt ne gt ↦
      rw (find_more key v k local ge lt, ne)
        (value_at_end local ∙ sym (lookup-Above k local (Above-less k key local gt s.0)))
]

distinct_some : {v : ℕ} → some v ≡ none → ⊥
distinct_some e = ground arith

-- Behind a log without the key, an entry is found exactly at its key.
pub lookup_last :
    (log : List (ℕ × ℕ)) (k v j : ℕ)
    → lookup log k ≡ none
    → lookup (log ++ (k, v) ∷ []) j ≡ (if k == j then some v else lookup log j)
lookup_last [] k v j absent = refl
lookup_last ((key, w) ∷ log) k v j absent = elim (Bool-cases (key == k)) [
  | inl here ↦ absurd (distinct_some (rw here at absent))
  | inr other ↦
      rw (lookup_last log k v j (rw other at absent))
        (swap_tests key k j (some w) (some v) (lookup log j) other)
]

pub lookup_new :
    (log : List (ℕ × ℕ)) (k v : ℕ) → lookup log k ≡ none → lookup (log ++ (k, v) ∷ []) k ≡ some v
lookup_new log k v absent =
    let here : (k == k) ≡ true = ground arith in lookup_last log k v k absent ∙ rw here refl

-- What is in the log stays as it is when a bag is added.
pub lookup_kept :
    (log : List (ℕ × ℕ)) (k v j bag : ℕ)
    → lookup log k ≡ none
    → lookup log j ≡ some bag
    → lookup (log ++ (k, v) ∷ []) j ≡ some bag
lookup_kept log k v j bag absent there = elim (Bool-cases (k == j)) [
  | inl here ↦
      let same : k ≡ j = ground arith in
      absurd (distinct_some (sym there ∙ subst (λ t. lookup log t ≡ none) same absent))
  | inr other ↦ lookup_last log k v j absent ∙ rw other there
]

pub IsLog-append :
    (log : List (ℕ × ℕ)) (k v : ℕ) → IsLog log → lookup log k ≡ none → IsLog (log ++ (k, v) ∷ [])
IsLog-append [] k v l absent = (refl, tt)
IsLog-append ((key, w) ∷ log) k v l absent = elim (Bool-cases (key == k)) [
  | inl here ↦ absurd (distinct_some (rw here at absent))
  | inr other ↦
      let apart : (k == key) ≡ false = ground arith in
      (
        lookup_last log k v key (rw other at absent) ∙ rw apart l.0,
        IsLog-append log k v l.1 (rw other at absent),
      )
]

in_middle : (first entries : List (ℕ × ℕ)) (k v : ℕ) → lookup (first ++ (k, v) ∷ entries) k ≢ none
in_middle [] entries k v e =
    let here : (k == k) ≡ true = ground arith in distinct_some (rw here at e)
in_middle ((key, w) ∷ first) entries k v e = elim (Bool-cases (key == k)) [
  | inl here ↦ distinct_some (rw here at e)
  | inr other ↦ in_middle first entries k v (rw other at e)
]

middle_absent :
    (first entries : List (ℕ × ℕ)) (k v : ℕ)
    → IsLog (first ++ (k, v) ∷ entries)
    → lookup first k ≡ none
middle_absent [] entries k v l = refl
middle_absent ((key, w) ∷ first) entries k v l = elim (Bool-cases (key == k)) [
  | inl here ↦
      let same : key ≡ k = ground arith in
      absurd (
        in_middle first entries k v
          (subst (λ t. lookup (first ++ (k, v) ∷ entries) t ≡ none) same l.0))
  | inr other ↦ rw other (middle_absent first entries k v l.1)
]

-- A map that agrees with the first part of the log agrees with the whole of it after `replay`.
pub replay-lem :
    (first entries local : List (ℕ × ℕ))
    → IsLog (first ++ entries)
    → IsSorted local
    → ((j : ℕ) → lookup local j ≡ lookup first j)
    → IsSorted (replay local entries)
      × ((j : ℕ) → lookup (replay local entries) j ≡ lookup (first ++ entries) j)
unfolding replay
replay-lem first [] local l s agree =
    (s, λ j. agree j ∙ ap (λ t. lookup t j) (sym (append-nil first)))
replay-lem first ((k, v) ∷ entries) local l s agree =
    let whole : first ++ (k, v) ∷ [] ++ entries ≡ first ++ (k, v) ∷ entries =
      append_assoc first ((k, v) ∷ []) entries in
    subst
      (λ log.
        IsSorted (replay (assign 0 local k v) entries)
        × ((j : ℕ) → lookup (replay (assign 0 local k v) entries) j ≡ lookup log j))
      whole
      (replay-lem (first ++ (k, v) ∷ []) entries (assign 0 local k v) (subst IsLog (sym whole) l)
        (assign-IsSorted 0 v local k s)
        (λ j.
          lookup-assign 0 v local k j s
          ∙ ap (λ t. if k == j then some v else t) (agree j)
          ∙ sym (lookup_last first k v j (middle_absent first entries k v l))))
