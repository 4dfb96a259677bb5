-- ===== src/Termination/Live.antt =====
-- Without work the ring of libcoro/include/galois/substrate/Termination.h ends every run.
use corograph.Base.{
  ℕ, suc, ◌≡◌, refl, sym, ap, ◌∙◌, subst, Bool, true, false, not, List, [], ◌∷◌, ◌++◌, ◌==◌, arith,
}
use native.Mathlib.Nat.{mod_self}
use corograph.Termination.{Detection, Run}
use corograph.Termination.Invariant.{place}
use corograph.Termination.Quiet.{Running-Inv}
use corograph.Termination.Ring.{failed, local_termination_done}
use corograph.Termination.Turn.{
  calls_from, ends, or_right, AtTurn, AtMaster, turn-AtMaster, one_round,
}

-- Three rounds and the master's next call.
abbrev pub three_rounds : ℕ → List ℕ
three_rounds n = calls_from 0 n ++ (calls_from 0 n ++ (calls_from 0 n ++ 0 ∷ []))

-- After a round in which all were white the next call of the master finds nothing.
clean_master :
    (m : ℕ) (last : Bool) (s : Detection)
    → AtTurn (suc m) (suc m) true last s
    → failed (s.holders 0) false ≡ false
clean_master m last s a =
    rw
      (
        a.all_white refl 0 (omega arith),
        subst (λ t. (s.holders t).token_is_black ≡ false) (mod_self (suc m)) (a.token_white refl),
      )
      refl

-- The second white round in turn ends the run.
ends_now : (m : ℕ) (s : Detection) → AtTurn (suc m) (suc m) true true s → ends (0 ∷ []) s ≡ true
ends_now m s a = or_right s.global_term (
    local_termination_done s 0 false (at.token 0 (omega arith) ∙ refl_test) refl_test
      (rw (a.last_white, clean_master m true s a) refl))
  where
    at : AtMaster (suc m) true s
    at = turn-AtMaster (suc m) true true s a

    refl_test : (0 == 0) ≡ true
    refl_test = ground arith

master-ends :
    (m : ℕ) (s : Detection) → AtMaster (suc m) false s → ends (three_rounds (suc m)) s ≡ true
master-ends m s a = one_round m false s _ a (λ t first.
    one_round m true t _ (turn-AtMaster (suc m) false _ t first) (λ u second.
      one_round m true u _ (turn-AtMaster (suc m) true _ u second) (λ v third.
        ends_now m v (
          subst (λ l. AtTurn (suc m) (suc m) true l v) (ap not (clean_master m _ u second))
            third))))

-- From any time of a run at which the token is with the master: if the threads call in turn and none
-- reports work, `globalTermination` answers true within three rounds and one call.
pub termination_live :
    (m : ℕ) (s : Detection) (h : List (ℕ × Bool))
    → Run (suc m) s h
    → s.global_term ≡ false
    → (s.holders 0).has_token ≡ true
    → ends (three_rounds (suc m)) s ≡ true
termination_live m s h r running token =
    let (g, inv) = Running-Inv (suc m) s h (omega arith) r running in
    let here : (0 == place (suc m) g.turn) ≡ true = sym (inv.token_at 0 (omega arith)) ∙ token in
    let with_master : place (suc m) g.turn ≡ 0 = ground arith in
    master-ends m s (record {
      threads = inv.threads;
      running = running;
      token = λ i low. inv.token_at i low ∙ ap (λ t. i == t) with_master;
      all_white = λ c. absurd (ground arith);
    })
