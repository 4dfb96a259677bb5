-- ===== src/Termination/Again.antt =====
-- The master's call with the token in libcoro/include/galois/substrate/Termination.h, which ends a
-- round.
use corograph.Base.{
  ℕ, ◌≡◌, ◌≢◌, refl, sym, ◌∙◌, Bool, true, false, [], ◌∷◌, ◌++◌, arith, update, update_same,
  update_other,
}
use corograph.Termination.History.{called, worked, called-append, called_last, worked-other}
use corograph.Termination.Track.{worked_quiet}
use corograph.Termination.Invariant.{Ghost, Passed, Tracked, no_work}

module _ (g : Ghost) (w : Bool) where
  -- After a call of the master with the token that does not end the run.
  abbrev pub again : Ghost
  again = record {
    past = g.past ++ g.round;
    round = g.since ++ (0, w) ∷ [];
    since = [];
    turn = 1;
    early = update g.before 0 (worked 0 (g.since ++ (0, w) ∷ []));
    late = update g.after 0 false;
    before = no_work;
    after = no_work;
  }

  none-Passed : (i : ℕ) → ¬ Passed again i
  none-Passed i p = ground arith

  -- The master.
  pub Tracked-again_same : (black master process : Bool) → Tracked again black master 0 process
  Tracked-again_same black master process = record {
    round_split = λ b a. sym (update_same g.before 0 (worked 0 (g.since ++ (0, w) ∷ []))) ∙ b;
    since_split = λ p _ _. absurd (none-Passed 0 p);
    waiting = λ _ _. (update_same g.after 0 false, refl);
    passed_white = λ p _. absurd (none-Passed 0 p);
    passed_since = λ p _. absurd (none-Passed 0 p);
    passed_called = λ p _. absurd (none-Passed 0 p);
  }

  -- Another thread, which the token has passed.
  pub Tracked-again_other :
      (black black2 master master2 : Bool) (i : ℕ) (process : Bool)
      → Passed g i
      → Tracked g black master i process
      → Tracked again black2 master2 i process
  Tracked-again_other black black2 master master2 i process p t =
      let ne : 0 ≢ i = λ e. ground arith in
      let same_before =
        update_other g.before 0 (worked 0 (g.since ++ (0, w) ∷ [])) i (λ e. ne (sym e)) in
      let same_after = update_other g.after 0 false i (λ e. ne (sym e)) in
      record {
        round_split = λ b a.
            worked-other i 0 w g.since ne
            ∙ t.since_split p (sym same_before ∙ b) (sym same_after ∙ a);
        since_split = λ q _ _. absurd (none-Passed i q);
        waiting = λ _ e. (same_after ∙ t.passed_since p e, refl);
        passed_white = λ q _. absurd (none-Passed i q);
        passed_since = λ q _. absurd (none-Passed i q);
        passed_called = λ q _. absurd (none-Passed i q);
      }

  -- The round that the call ends was white, for the master and for another thread.
  pub again-white_same :
      (black master : Bool)
      → w ≡ false
      → master ≡ false
      → Tracked g black master 0 master
      → (again.early 0 ≡ false) × (called 0 again.round ≡ true)
  again-white_same black master w_false master_white t =
      let not_passed : ¬ Passed g 0 = λ p. ground arith in
      (
        update_same g.before 0 (worked 0 (g.since ++ (0, w) ∷ []))
            ∙ worked_quiet g 0 w w_false
            ∙ (t.waiting not_passed master_white).1,
        called_last 0 w g.since,
      )

  pub again-white_other :
      (black master : Bool) (i : ℕ) (process : Bool)
      → black ≡ false
      → master ≡ false
      → Passed g i
      → Tracked g black master i process
      → (again.early i ≡ false) × (called i again.round ≡ true)
  again-white_other black master i process token_white master_white p t =
      let ne : i ≢ 0 = λ e. ground arith in
      (
        update_other g.before 0 (worked 0 (g.since ++ (0, w) ∷ [])) i ne
            ∙ (t.passed_white p token_white).1,
        called-append i 0 w g.since (t.passed_called p master_white),
      )
