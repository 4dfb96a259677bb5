-- ===== src/Termination/History.antt =====
-- Histories of calls of `localTermination` of libcoro/include/galois/substrate/Termination.h.
use corograph.Base.{
  ℕ, ◌≡◌, ◌≢◌, refl, ap, Bool, true, false, ◌||◌, ◌&&◌, List, [], ◌∷◌, ◌++◌, ◌==◌, arith, ◌<◌,
  Bool-cases, inl, inr,
}

-- Whether the thread called, and whether it reported work in some call.
abbrev pub called : ℕ → List (ℕ × Bool) → Bool
called i [] = false
called i ((id, w) ∷ h) = (id == i) || called i h

abbrev pub worked : ℕ → List (ℕ × Bool) → Bool
worked i [] = false
worked i ((id, w) ∷ h) = ((id == i) && w) || worked i h

-- At some time before the end there was a stretch of calls in which every one of the `n` threads
-- called and none reported work.
pub record HadQuiet (n : ℕ) (h : List (ℕ × Bool)) : Type 0 where
  pub before : List (ℕ × Bool)
  pub quiet : List (ℕ × Bool)
  pub after : List (ℕ × Bool)
  pub split : h ≡ before ++ quiet ++ after
  pub all_called : (i : ℕ) → i < n → called i quiet ≡ true
  pub none_worked : (i : ℕ) → i < n → worked i quiet ≡ false

pub called-append :
    (i id : ℕ) (w : Bool) (h : List (ℕ × Bool))
    → called i h ≡ true
    → called i (h ++ (id, w) ∷ []) ≡ true
called-append i id w [] e = absurd (ground arith)
called-append i id w ((j, v) ∷ h) e = elim (Bool-cases (j == i)) [
  | inl here ↦ rw here refl
  | inr other ↦ rw other (called-append i id w h (rw other at e))
]

pub called_last : (i : ℕ) (w : Bool) (h : List (ℕ × Bool)) → called i (h ++ (i, w) ∷ []) ≡ true
called_last i w [] = let here : (i == i) ≡ true = ground arith in rw here refl
called_last i w ((j, v) ∷ h) = elim (Bool-cases (j == i)) [
  | inl here ↦ rw here refl
  | inr other ↦ rw other (called_last i w h)
]

pub worked-other :
    (i id : ℕ) (w : Bool) (h : List (ℕ × Bool)) → id ≢ i → worked i (h ++ (id, w) ∷ []) ≡ worked i h
worked-other i id w [] ne = let other : (id == i) ≡ false = ground arith in rw other refl
worked-other i id w ((j, v) ∷ h) ne = ap (λ t. ((j == i) && v) || t) (worked-other i id w h ne)

pub worked-idle : (i id : ℕ) (h : List (ℕ × Bool)) → worked i (h ++ (id, false) ∷ []) ≡ worked i h
worked-idle i id [] = elim (Bool-cases (id == i)) [
  | inl here ↦ rw here refl
  | inr other ↦ rw other refl
]
worked-idle i id ((j, v) ∷ h) = ap (λ t. ((j == i) && v) || t) (worked-idle i id h)
