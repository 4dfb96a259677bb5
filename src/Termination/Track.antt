-- ===== src/Termination/Track.antt =====
-- What a call of `localTermination` of libcoro/include/galois/substrate/Termination.h changes in
-- what is known of one thread.
use corograph.Base.{
  ℕ, suc, ◌≡◌, ◌≢◌, refl, sym, ap, ◌∙◌, Bool, false, ◌||◌, ◌<◌, [], ◌∷◌, ◌++◌, or_false, arith,
  update, update_same, update_other,
}
use corograph.Termination.History.{worked, called-append, called_last, worked-other, worked-idle}
use corograph.Termination.Invariant.{Ghost, Passed, Tracked}

module _ (g : Ghost) (id : ℕ) (w : Bool) where
  -- After a call without the token.
  abbrev pub idle : Ghost
  idle = record g { since = g.since ++ (id, w) ∷ []; after = update g.after id (g.after id || w) }

  pub Tracked-idle_other :
      (black master master2 : Bool) (i : ℕ) (process : Bool)
      → id ≢ i
      → (master2 ≡ false → master ≡ false)
      → Tracked g black master i process
      → Tracked idle black master2 i process
  Tracked-idle_other black master master2 i process ne less t =
      let same_work = worked-other i id w g.since ne in
      let same_after = update_other g.after id (g.after id || w) i (λ e. ne (sym e)) in
      record {
        round_split = t.round_split;
        since_split = λ p b a. same_work ∙ t.since_split p b (sym same_after ∙ a);
        waiting = λ p e. ((t.waiting p e).0, same_work ∙ (t.waiting p e).1);
        passed_white = t.passed_white;
        passed_since = λ p e. same_after ∙ t.passed_since p e;
        passed_called = λ p e. called-append i id w g.since (t.passed_called p (less e));
      }

  pub worked_quiet : w ≡ false → worked id (g.since ++ (id, w) ∷ []) ≡ worked id g.since
  worked_quiet e = ap (λ v. worked id (g.since ++ (id, v) ∷ [])) e ∙ worked-idle id id g.since

  pub Tracked-idle_same :
      (black master master2 : Bool) (process : Bool)
      → (master2 ≡ false → master ≡ false)
      → Tracked g black master id process
      → Tracked idle black master2 id (process || w)
  Tracked-idle_same black master master2 process less t =
      let new_after = update_same g.after id (g.after id || w) in
      record {
        round_split = t.round_split;
        since_split = λ p b a.
            let (a_false, w_false) = or_false (g.after id) w (sym new_after ∙ a) in
            worked_quiet w_false ∙ t.since_split p b a_false;
        waiting = λ p e.
            let (e_false, w_false) = or_false process w e in
            ((t.waiting p e_false).0, worked_quiet w_false ∙ (t.waiting p e_false).1);
        passed_white = t.passed_white;
        passed_since = λ p e.
            let (e_false, w_false) = or_false process w e in
            new_after ∙ rw (t.passed_since p e_false, w_false) refl;
        passed_called = λ p e. called-append id id w g.since (t.passed_called p (less e));
      }

  -- After a call with the token, by a thread that is not the master.
  abbrev pub passed_on : Ghost
  passed_on = record g {
    since = g.since ++ (id, w) ∷ [];
    turn = suc g.turn;
    before = update g.before id (worked id (g.since ++ (id, w) ∷ []));
    after = update g.after id false;
  }

  pub Tracked-pass_other :
      (black taint master : Bool) (i : ℕ) (process : Bool)
      → id ≢ i
      → g.turn ≡ id
      → Tracked g black master i process
      → Tracked passed_on (taint || black) master i process
  Tracked-pass_other black taint master i process ne at_id t =
      let same_work = worked-other i id w g.since ne in
      let same_after = update_other g.after id false i (λ e. ne (sym e)) in
      let same_before =
        update_other g.before id (worked id (g.since ++ (id, w) ∷ [])) i (λ e. ne (sym e)) in
      let back : Passed passed_on i → Passed g i = λ p. (p.0, ground arith) in
      let forth : Passed g i → Passed passed_on i = λ p. (p.0, ground arith) in
      record {
        round_split = t.round_split;
        since_split =
            λ p b a. same_work ∙ t.since_split (back p) (sym same_before ∙ b) (sym same_after ∙ a);
        waiting = λ p e. let old = t.waiting (λ q. p (forth q)) e in (old.0, same_work ∙ old.1);
        passed_white = λ p e.
            let old = t.passed_white (back p) (or_false taint black e).1 in
            (old.0, same_before ∙ old.1);
        passed_since = λ p e. same_after ∙ t.passed_since (back p) e;
        passed_called = λ p e. called-append i id w g.since (t.passed_called (back p) e);
      }

  pub Tracked-pass_same :
      (black master process : Bool)
      → 0 < id
      → g.turn ≡ id
      → Tracked g black master id process
      → Tracked passed_on ((process || w) || black) master id false
  Tracked-pass_same black master process pos at_id t =
      let new_before = update_same g.before id (worked id (g.since ++ (id, w) ∷ [])) in
      let not_yet : ¬ Passed g id = λ p. ground arith in
      record {
        round_split = t.round_split;
        since_split = λ p b a. sym new_before ∙ b;
        waiting = λ p e. absurd (p (pos, ground arith));
        passed_white = λ p e.
            let (first, _) = or_false (process || w) black e in
            let (e_false, w_false) = or_false process w first in
            let old = t.waiting not_yet e_false in
            (old.0, new_before ∙ worked_quiet w_false ∙ old.1);
        passed_since = λ p e. update_same g.after id false;
        passed_called = λ p e. called_last id w g.since;
      }
