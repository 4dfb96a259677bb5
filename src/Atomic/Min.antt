-- ===== src/Atomic/Min.antt =====
-- `atomicMin` of libcoro/include/galois/AtomicHelpers.h under every interleaving.
use corograph.Base.{
  ℕ, ◌≡◌, refl, sym, ◌∙◌, subst, Bool, true, ◌&&◌, ◌≤◌, ◌==◌, ltb, update, update_same,
  update_other, arith, Bool-cases, inl, inr, ◌⊎◌,
}
use corograph.Atomic.{Phase, idle, looping, returned, Cell, advance, atomic_min, Run, start, steps}

-- What holds of a thread: one that is back finds the variable not above what it wanted.
abbrev pub Settled : ℕ → ℕ → Phase → Type 0
Settled a b idle = Unit {0}
Settled a b (looping old_a) = a ≤ old_a
Settled a b (returned old_a) = a ≤ b

-- The variable never rises, and is the first value or one that a thread wanted.
record Inv (b : ℕ → ℕ) (first : ℕ) (s : Cell) : Type 0 where
  low : s.a ≤ first
  settled : (t : ℕ) → Settled s.a (b t) (s.phase t)
  source : (s.a ≡ first) ⊎ ((t : ℕ) × (s.a ≡ b t))

Settled-less : (a c b : ℕ) (p : Phase) → c ≤ a → Settled a b p → Settled c b p
Settled-less a c b idle less s = tt
Settled-less a c b (looping old_a) less s = omega arith
Settled-less a c b (returned old_a) less s = omega arith

-- One step of a thread.
record Advanced (a b : ℕ) (r : ℕ × Phase) : Type 0 where
  falls : r.0 ≤ a
  settled : Settled r.0 b r.1
  source : (r.0 ≡ a) ⊎ (r.0 ≡ b)

advance-Advanced :
    (weak : Bool) (b a : ℕ) (p : Phase) → Settled a b p → Advanced a b (advance weak b a p)
unfolding advance
advance-Advanced weak b a idle s = record {
  falls = omega arith;
  settled = omega arith;
  source = inl refl;
}
advance-Advanced weak b a (looping old_a) s = elim (Bool-cases (ltb b old_a)) [
  | inl above ↦ elim (Bool-cases ((a == old_a) && weak)) [
    | inl swaps ↦
        let same = equal_of a old_a weak swaps in
        rw (above, swaps)
          (record { falls = ground arith; settled = omega arith; source = inr refl })
    | inr fails ↦
        rw (above, fails) (record { falls = omega arith; settled = omega arith; source = inl refl })
  ]
  | inr not_above ↦
      rw not_above (record { falls = omega arith; settled = ground arith; source = inl refl })
]
  where
    equal_of : (x y : ℕ) (w : Bool) → ((x == y) && w) ≡ true → x ≡ y
    equal_of x y w e = elim (Bool-cases (x == y)) [
      | inl here ↦ ground arith
      | inr other ↦ absurd (ground arith)
    ]
advance-Advanced weak b a (returned old_a) s = record {
  falls = omega arith;
  settled = s;
  source = inl refl;
}

step-Inv :
    (b : ℕ → ℕ) (first : ℕ) (weak : Bool) (t : ℕ) (s : Cell)
    → Inv b first s
    → Inv b first (atomic_min b weak t s)
unfolding atomic_min
step-Inv b first weak t s inv =
    let d = advance-Advanced weak (b t) s.a (s.phase t) (inv.settled t) in
    record {
      low = omega (arith, d.falls, inv.low);
      settled = λ u. elim (Bool-cases (t == u)) [
        | inl here ↦
            let same : t ≡ u = ground arith in
            subst
              (λ k.
                Settled (advance weak (b t) s.a (s.phase t)).0 (b k)
                  (update s.phase t (advance weak (b t) s.a (s.phase t)).1 k))
              same
              (subst (Settled (advance weak (b t) s.a (s.phase t)).0 (b t))
                (sym (update_same s.phase t (advance weak (b t) s.a (s.phase t)).1)) d.settled)
        | inr other ↦
            subst (Settled (advance weak (b t) s.a (s.phase t)).0 (b u))
              (sym (
                update_other s.phase t (advance weak (b t) s.a (s.phase t)).1 u
                  (λ e. ground arith)))
              (Settled-less s.a (advance weak (b t) s.a (s.phase t)).0 (b u) (s.phase u) d.falls
                (inv.settled u))
      ];
      source = elim d.source [
        | inl same ↦ elim inv.source [
          | inl at_first ↦ inl (same ∙ at_first)
          | inr (u, at_u) ↦ inr (u, same ∙ at_u)
        ]
        | inr at_t ↦ inr (t, at_t)
      ];
    }

Run-Inv : (b : ℕ → ℕ) (first : ℕ) {s : Cell} → Run b first s → Inv b first s
Run-Inv b first start = record { low = omega arith; settled = λ t. tt; source = inl refl }
Run-Inv b first (steps {s} t weak r) = step-Inv b first weak t s (Run-Inv b first r)

-- In any interleaving of `atomicMin` by any threads, whatever exchanges fail without reason: the
-- variable is not above its first value nor above what a thread that is back wanted, and it is the
-- first value or what some thread wanted.
pub atomic_min_least :
    (b : ℕ → ℕ) (first : ℕ) (s : Cell)
    → Run b first s
    → (s.a ≤ first)
      × ((t old_a : ℕ) → s.phase t ≡ returned old_a → s.a ≤ b t)
      × ((s.a ≡ first) ⊎ ((t : ℕ) × (s.a ≡ b t)))
atomic_min_least b first s r =
    let inv = Run-Inv b first r in
    (inv.low, (λ t old_a e. subst (Settled s.a (b t)) e (inv.settled t)), inv.source)
