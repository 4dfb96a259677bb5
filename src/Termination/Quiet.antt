-- ===== src/Termination/Quiet.antt =====
-- The ring of libcoro/include/galois/substrate/Termination.h ends a run only after a quiet round.
use corograph.Base.{
  ℕ, ◌≡◌, sym, subst, Bool, true, false, not, ◌&&◌, ◌<◌, List, [], ◌∷◌, ◌++◌, ◌==◌, ◌⊎◌, arith,
  Bool-cases, inl, inr,
}
use corograph.Termination.{Detection, local_termination, Run, start, call}
use corograph.Termination.Invariant.{Ghost, Inv, initialize-Inv}
use corograph.Termination.History.{HadQuiet}
use corograph.Termination.Track.{idle, passed_on}
use corograph.Termination.Again.{again}
use corograph.Termination.Step.{idle-Inv, pass-Inv}
use corograph.Termination.Master.{again-Inv, done-HadQuiet}
use corograph.Termination.Ring.{failed, local_termination_done}

abbrev Kept : ℕ → Detection → List (ℕ × Bool) → Type 0
Kept n s h = ((g : Ghost) × Inv n s h g) ⊎ ((s.global_term ≡ true) × HadQuiet n h)

local_termination-Kept :
    (n : ℕ) (s : Detection) (h : List (ℕ × Bool)) (g : Ghost) (id : ℕ) (w : Bool)
    → Inv n s h g
    → id < n
    → Kept n (local_termination s id w) (h ++ (id, w) ∷ [])
local_termination-Kept n s h g id w inv small = elim (Bool-cases (s.holders id).has_token) [
  | inr no_token ↦ inl (idle g id w, idle-Inv n s h g inv id w small no_token)
  | inl token ↦ elim (Bool-cases (id == 0)) [
    | inr other ↦ inl (passed_on g id w, pass-Inv n s h g inv id w small token (ground arith))
    | inl master ↦
        let at_0 : 0 ≡ id = ground arith in
        subst (λ k. Kept n (local_termination s k w) (h ++ (k, w) ∷ [])) at_0
          (master-Kept (subst (λ k. k < n) (sym at_0) small)
            (subst (λ k. (s.holders k).has_token ≡ true) (sym at_0) token))
  ]
]
  where
    master-Kept :
        0 < n → (s.holders 0).has_token ≡ true → Kept n (local_termination s 0 w) (h ++ (0, w) ∷ [])
    master-Kept pos token =
        elim (Bool-cases ((s.holders 0).last_was_white && not (failed (s.holders 0) w))) [
          | inl done ↦ inr (
            local_termination_done s 0 w token (ground arith) done,
            done-HadQuiet n s h g inv w pos token done,
          )
          | inr not_done ↦ inl (again g w, again-Inv n s h g inv w pos token not_done)
        ]

Run-Kept : (n : ℕ) {s : Detection} {h : List (ℕ × Bool)} → 0 < n → Run n s h → Kept n s h
Run-Kept n pos start = inl (_, initialize-Inv n pos)
Run-Kept n pos (call {s} {h} id w r running small) = elim (Run-Kept n pos r) [
  | inl (g, inv) ↦ local_termination-Kept n s h g id w inv small
  | inr (done, q) ↦ absurd (ground arith)
]

pub Running-Inv :
    (n : ℕ) (s : Detection) (h : List (ℕ × Bool))
    → 0 < n
    → Run n s h
    → s.global_term ≡ false
    → (g : Ghost) × Inv n s h g
Running-Inv n s h pos r running = elim (Run-Kept n pos r) [
  | inl inv ↦ inv
  | inr (done, _) ↦ absurd (ground arith)
]

-- When `globalTermination` answers true there was, at some time of the run, a stretch of calls of
-- `localTermination` in which every thread called and none reported work.
pub termination_safe :
    (n : ℕ) (s : Detection) (h : List (ℕ × Bool))
    → 0 < n
    → Run n s h
    → s.global_term ≡ true
    → HadQuiet n h
termination_safe n s h pos r done = elim (Run-Kept n pos r) [
  | inl (g, inv) ↦ absurd (let running = inv.running in ground arith)
  | inr (_, q) ↦ q
]
