-- ===== src/Worklist/Sockets/Scan.antt =====
-- The scan over the queues of all sockets finds a node exactly if some queue has one.
use corograph.Base.{
  ℕ, zero, suc, ◌+◌, ◌-◌, ◌≡◌, ◌≢◌, refl, sym, ap, ◌∙◌, subst, false, ◌<◌, ◌≤◌, List, [], ◌∷◌, ◌==◌,
  ◌⊎◌, inl, inr, length, ltb, get_or, set, arith, Bool-cases,
}
use corograph.Worklist.LinkedQueue.{Queue}
use corograph.Worklist.LinkedQueue.Segment.{Holds}
use corograph.Worklist.LinkedQueue.Refine.{pop-nil, pop-cons}
use corograph.Worklist.Sockets.{pop_part_by_id, pop_range, pop_part}

-- The queues hold these lists of nodes.
abbrev pub AllHold : List Queue → List (List ℕ) → Type 0
AllHold [] [] = Unit {0}
AllHold [] (xs ∷ xss) = ⊥
AllHold (q ∷ qs) [] = ⊥
AllHold (q ∷ qs) (xs ∷ xss) = Holds q xs × AllHold qs xss

-- The oldest node of one queue was taken, and nothing else changed.
pub record Taken (xss : List (List ℕ)) (result : List Queue × ℕ) : Type 0 where
  pub i : ℕ
  pub rest : List ℕ
  pub front : get_or xss i [] ≡ result.1 ∷ rest
  pub not_null : result.1 ≢ 0
  pub holds : AllHold result.0 (set xss i rest)

pub at_one :
    (qs : List Queue) (xss : List (List ℕ)) (i : ℕ)
    → AllHold qs xss
    → ((get_or xss i [] ≡ []) × (pop_part_by_id qs i ≡ (qs, 0))) ⊎ Taken xss (pop_part_by_id qs i)
unfolding pop_part_by_id
at_one [] [] i all = inl (refl, refl)
at_one [] (xs ∷ xss) i all = elim all [ ]
at_one (q ∷ qs) [] i all = elim all [ ]
at_one (q ∷ qs) ([] ∷ xss) zero all = inl (refl, rw (pop-nil q all.0) refl)
at_one (q ∷ qs) ((x ∷ xs) ∷ xss) zero all =
    let (at_x, holds) = pop-cons q x xs all.0 in
    inr (record {
      i = 0;
      rest = xs;
      front = ap (λ t. t ∷ xs) (sym at_x);
      not_null = λ e. (let (_, nz, _, _) = all.0.chain in nz) (sym at_x ∙ e);
      holds = (holds, all.1);
    })
at_one (q ∷ qs) (xs ∷ xss) (suc i) all = elim (at_one qs xss i all.1) [
  | inl (empty, same) ↦ inl (empty, rw same refl)
  | inr t ↦ inr (record {
    i = suc t.i;
    rest = t.rest;
    front = t.front;
    not_null = t.not_null;
    holds = (all.0, t.holds);
  })
]

with_first :
    (xss : List (List ℕ)) (i n : ℕ)
    → get_or xss i [] ≡ []
    → ((j : ℕ) → suc i ≤ j → j < suc i + n → get_or xss j [] ≡ [])
    → (j : ℕ) → i ≤ j
    → j < i + suc n
    → get_or xss j [] ≡ []
with_first xss i n empty later j low high = elim (Bool-cases (j == i)) [
  | inl here ↦ let same : j ≡ i = ground arith in subst (λ k. get_or xss k [] ≡ []) (sym same) empty
  | inr other ↦ later j (ground arith) (ground arith)
]

all_empty :
    (xss : List (List ℕ)) (id n : ℕ)
    → id < n
    → get_or xss id [] ≡ []
    → ((j : ℕ) → suc id ≤ j → j < suc id + (n - suc id) → get_or xss j [] ≡ [])
    → ((j : ℕ) → 0 ≤ j → j < 0 + id → get_or xss j [] ≡ [])
    → (j : ℕ) → j < n
    → get_or xss j [] ≡ []
all_empty xss id n small own above below j low = elim (Bool-cases (ltb j id)) [
  | inl less ↦ below j (omega arith) (ground arith)
  | inr not_less ↦ elim (Bool-cases (j == id)) [
    | inl here ↦
        let same : j ≡ id = ground arith in subst (λ k. get_or xss k [] ≡ []) (sym same) own
    | inr other ↦ above j (ground arith) (ground arith)
  ]
]

pub in_range :
    (n : ℕ) (qs : List Queue) (xss : List (List ℕ)) (i : ℕ)
    → AllHold qs xss
    → (((j : ℕ) → i ≤ j → j < i + n → get_or xss j [] ≡ []) × (pop_range n qs i ≡ (qs, 0)))
      ⊎ Taken xss (pop_range n qs i)
unfolding pop_range
in_range zero qs xss i all = inl ((λ j low high. absurd (omega arith)), refl)
in_range (suc n) qs xss i all = elim (at_one qs xss i all) [
  | inl (empty, same) ↦ rw same (elim (in_range n qs xss (suc i) all) [
    | inl (later, none) ↦ inl (with_first xss i n empty later, none)
    | inr t ↦ inr t
  ])
  | inr t ↦
      let found : ((pop_part_by_id qs i).1 == 0) ≡ false = (let nz = t.not_null in ground arith) in
      rw found (inr t)
]

pub pop_part_finds :
    (qs : List Queue) (xss : List (List ℕ)) (id : ℕ)
    → AllHold qs xss
    → id < length qs
    → (((j : ℕ) → j < length qs → get_or xss j [] ≡ []) × (pop_part qs id ≡ (qs, 0)))
      ⊎ Taken xss (pop_part qs id)
unfolding pop_part
pop_part_finds qs xss id all small = elim (at_one qs xss id all) [
  | inl (own, same) ↦ rw same (elim (in_range (length qs - suc id) qs xss (suc id) all) [
    | inl (above, none_above) ↦ rw none_above (elim (in_range id qs xss 0 all) [
      | inl (below, none_below) ↦
          inl (all_empty xss id (length qs) small own above below, none_below)
      | inr t ↦ inr t
    ])
    | inr t ↦
        let found : ((pop_range (length qs - suc id) qs (suc id)).1 == 0) ≡ false =
          (let nz = t.not_null in ground arith) in
        rw found (inr t)
  ])
  | inr t ↦
      let found : ((pop_part_by_id qs id).1 == 0) ≡ false = (let nz = t.not_null in ground arith) in
      rw found (inr t)
]
