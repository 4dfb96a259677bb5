-- ===== src/FlatMap/Steps.antt =====
-- The operations of libcoro/include/galois/FlatMap.h, one entry at a time.
use corograph.Base.{
  ℕ, zero, suc, ◌≡◌, refl, ap, true, false, List, [], ◌∷◌, ◌++◌, ◌==◌, ltb, length, arith,
  Bool-cases, inl, inr,
}
use corograph.FlatMap.{
  lower_bound, absent, insert_at, pop_back, emplace, index, assign, present, find, erase,
}

zero_suc : (a : ℕ) → (0 == suc a) ≡ false
zero_suc a = ground arith

equal_self : (a : ℕ) → (a == a) ≡ true
equal_self a = ground arith

suc_equal : (a b : ℕ) → (suc a == suc b) ≡ (a == b)
suc_equal a b = ground arith

pop_back-append {ℓ} : {V : Type ℓ} → (xs : List (ℕ × V)) (x : ℕ × V) → pop_back (xs ++ x ∷ []) ≡ xs
pop_back-append [] x = refl
pop_back-append (y ∷ []) x = refl
pop_back-append (y ∷ z ∷ xs) x = ap (λ t. y ∷ t) (pop_back-append (z ∷ xs) x)

pop_back-insert {ℓ} :
    {V : Type ℓ} (y : ℕ × V) (xs : List (ℕ × V)) (i : ℕ) (x : ℕ × V)
    → pop_back (y ∷ insert_at xs i x) ≡ y ∷ pop_back (insert_at xs i x)
pop_back-insert y xs zero x = refl
pop_back-insert y [] (suc i) x = refl
pop_back-insert y (z ∷ xs) (suc i) x = refl

pop_back-grown {ℓ} :
    {V : Type ℓ} (y : ℕ × V) (xs : List (ℕ × V)) (x : ℕ × V)
    → pop_back (y ∷ xs ++ x ∷ []) ≡ y ∷ pop_back (xs ++ x ∷ [])
pop_back-grown y [] x = refl
pop_back-grown y (z ∷ xs) x = refl

module _ {ℓ} {V : Type ℓ} (key k : ℕ) (v : V) (entries : List (ℕ × V)) where
  -- An entry whose key is less is passed.
  module _ (w : V) (lt : ltb key k ≡ true) where
    pub assign_less :
        (default : V)
        → assign default ((key, v) ∷ entries) k w ≡ (key, v) ∷ assign default entries k w
    unfolding assign index lower_bound
    assign_less default = rw lt (elim (Bool-cases (absent entries (lower_bound entries k) k)) [
      | inl made ↦ rw made
      | inr old ↦ rw old
    ])

    pub emplace_less : emplace ((key, v) ∷ entries) (k, w) ≡ (
      (key, v) ∷ (emplace entries (k, w)).0,
      suc (emplace entries (k, w)).1,
      (emplace entries (k, w)).2,
    )
    unfolding emplace lower_bound
    emplace_less =
        rw (lt, suc_equal (lower_bound entries k) (length entries))
          (elim (Bool-cases (absent entries (lower_bound entries k) k)) [
            | inl made ↦ elim (Bool-cases (lower_bound entries k == length entries)) [
              | inl last ↦ rw (made, last) refl
              | inr within ↦
                  rw (made, within)
                    (ap (λ t. (t, suc (lower_bound entries k), true))
                      (pop_back-insert (key, v) (entries ++ (k, w) ∷ []) (lower_bound entries k)
                        (k, w)))
            ]
            | inr old ↦ rw old (
                ap (λ t. (t, suc (lower_bound entries k), false))
                  (pop_back-grown (key, v) entries (k, w)))
          ])

    pub erase_less :
        erase ((key, v) ∷ entries) k ≡ ((key, v) ∷ (erase entries k).0, (erase entries k).1)
    unfolding erase find lower_bound
    erase_less = rw lt (elim (Bool-cases (present entries (lower_bound entries k) k)) [
      | inl held ↦
          rw (held, suc_equal (lower_bound entries k) (length entries))
            (elim (Bool-cases (lower_bound entries k == length entries)) [
              | inl last ↦ rw last refl
              | inr within ↦ rw within refl
            ])
      | inr gone ↦
          rw (gone, suc_equal (length entries) (length entries))
            (elim (Bool-cases (length entries == length entries)) [
              | inl last ↦ rw last refl
              | inr within ↦ absurd (ground arith)
            ])
    ])

  -- An entry with the key.
  module _ (w : V) (ge : ltb key k ≡ false) (le : ltb k key ≡ false) where
    pub assign_same : (default : V) → assign default ((key, v) ∷ entries) k w ≡ (key, w) ∷ entries
    unfolding assign index lower_bound
    assign_same default = rw (ge, le) refl

    pub emplace_same : emplace ((key, v) ∷ entries) (k, w) ≡ ((key, v) ∷ entries, 0, false)
    unfolding emplace lower_bound
    emplace_same =
        rw (ge, le) (ap (λ t. (t, 0, false)) (pop_back-append ((key, v) ∷ entries) (k, w)))

    pub erase_same : erase ((key, v) ∷ entries) k ≡ (entries, 1)
    unfolding erase find lower_bound
    erase_same = rw (ge, le, ge, zero_suc (length entries)) refl

  -- An entry whose key is greater.
  module _ (w : V) (ge : ltb key k ≡ false) (lt : ltb k key ≡ true) where
    pub assign_more :
        (default : V) → assign default ((key, v) ∷ entries) k w ≡ (k, w) ∷ (key, v) ∷ entries
    unfolding assign index lower_bound
    assign_more default = rw (ge, lt) refl

    pub emplace_more : emplace ((key, v) ∷ entries) (k, w) ≡ ((k, w) ∷ (key, v) ∷ entries, 0, true)
    unfolding emplace lower_bound
    emplace_more =
        rw (ge, lt, zero_suc (length entries))
          (ap (λ t. ((k, w) ∷ t, 0, true)) (pop_back-append ((key, v) ∷ entries) (k, w)))

    pub erase_more : erase ((key, v) ∷ entries) k ≡ ((key, v) ∷ entries, 0)
    unfolding erase find lower_bound
    erase_more = rw (ge, lt, ge, equal_self (suc (length entries))) refl
