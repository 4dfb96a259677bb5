-- ===== src/Termination/Tests.antt =====
-- Evaluation tests and concrete instances for the ring of
-- libcoro/include/galois/substrate/Termination.h.
use corograph.Base.{ℕ, ◌≡◌, refl, Bool, true, false, List, [], ◌∷◌, arith}
use corograph.Termination.{Detection, initialize, local_termination, recirculate, Run, start, call}
use corograph.Termination.History.{HadQuiet}
use corograph.Termination.Turn.{ends}
use corograph.Termination.Live.{three_rounds, termination_live}
use corograph.Termination.Quiet.{termination_safe}

-- Two threads call in turn, without work.
abbrev calls : List (ℕ × Bool)
calls =
    (0, false) ∷ (1, false) ∷ (0, false) ∷ (1, false) ∷ (0, false) ∷ (1, false) ∷ (0, false) ∷ []

abbrev run : Detection → List (ℕ × Bool) → Detection
run s [] = s
run s ((id, w) ∷ h) = run (local_termination s id w) h

calls-end : (run (initialize 2) calls).global_term ≡ true
unfolding initialize local_termination recirculate
calls-end = refl

-- The last two calls are needed.
calls-go_on :
    (run
      (initialize 2)
      ((0, false) ∷ (1, false) ∷ (0, false) ∷ (1, false) ∷ (0, false) ∷ [])).global_term
    ≡ false
unfolding initialize local_termination recirculate
calls-go_on = refl

calls-Run : Run 2 (run (initialize 2) calls) calls
unfolding initialize local_termination recirculate
calls-Run =
    let c0 : Run 2 (initialize 2) [] = start in
    let c1 = call 0 false c0 refl (omega arith) in
    let c2 = call 1 false c1 refl (omega arith) in
    let c3 = call 0 false c2 refl (omega arith) in
    let c4 = call 1 false c3 refl (omega arith) in
    let c5 = call 0 false c4 refl (omega arith) in
    let c6 = call 1 false c5 refl (omega arith) in call 0 false c6 refl (omega arith)

termination_safe_example : HadQuiet 2 calls
termination_safe_example =
    termination_safe 2 (run (initialize 2) calls) calls (omega arith) calls-Run calls-end

-- Three threads, none of which has called yet.
termination_live_example : ends (three_rounds 3) (initialize 3) ≡ true
unfolding initialize
termination_live_example = termination_live 2 (initialize 3) [] start refl refl
