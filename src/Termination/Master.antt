-- ===== src/Termination/Master.antt =====
-- The master's calls with the token in libcoro/include/galois/substrate/Termination.h: they keep the
-- invariant, or end the run after a round without work.
use corograph.Base.{
  ℕ, ◌≡◌, ◌≢◌, refl, sym, ap, ◌∙◌, subst, Bool, true, false, not, ◌||◌, ◌&&◌, ◌%◌, ◌<◌, List, [],
  ◌∷◌, ◌++◌, ◌==◌, or_false, arith, update_same, update_other, update-ap, update_id, Bool-cases,
  inl, inr, append-nil,
}
use corograph.Termination.{TokenHolder, Detection, with_holder, recirculate, local_termination}
use corograph.Termination.Invariant.{Ghost, Passed, Tracked, place, place_cases, Inv}
use corograph.Termination.History.{HadQuiet, called}
use corograph.Termination.Again.{
  again, Tracked-again_same, Tracked-again_other, again-white_same, again-white_other,
}
use corograph.Termination.Step.{split_more, token_holder}
use corograph.Termination.Ring.{
  failed, reset, local_termination_again, recirculate-last, recirculate-process_other,
  recirculate-moves, recirculate_frame,
}

negated : (b : Bool) → not b ≡ true → b ≡ false
negated false e = refl
negated true e = sym e

split_test : (a b : Bool) → (a && not b) ≡ true → (a ≡ true) × (b ≡ false)
split_test true b e = (refl, negated b e)
split_test false b e = absurd (ground arith)

module _ (n : ℕ) (s : Detection) (h : List (ℕ × Bool)) (g : Ghost) (inv : Inv n s h g) (w : Bool)
    (pos : 0 < n) (token : (s.holders 0).has_token ≡ true) where
  -- The token is with the master after a whole round.
  all_passed : (g.turn ≡ n) × (place n g.turn ≡ 0)
  all_passed =
      let here = token_holder n s h g inv 0 w pos token in
      elim (place_cases n g.turn inv.turn_high) [
        | inl e ↦ e
        | inr (_, e) ↦ absurd (let low = inv.turn_low in ground arith)
      ]

  Passed-all : (i : ℕ) → i < n → i ≢ 0 → Passed g i
  Passed-all i low ne = (ground arith, subst (λ t. i < t) (sym all_passed.0) low)

  Tracked-at :
      (i : ℕ)
      → i < n
      → Tracked g
          (s.holders 0).token_is_black
          (s.holders 0).process_is_black
          i
          (s.holders i).process_is_black
  Tracked-at i low =
      subst
        (λ p.
          Tracked g (s.holders p).token_is_black (s.holders 0).process_is_black i
            (s.holders i).process_is_black)
        all_passed.1 (inv.tracked i low)

  abbrev next_round : Detection
  next_round =
      with_holder s 0
        (record (reset (s.holders 0)) { last_was_white = not (failed (s.holders 0) w) })

  abbrev marked : TokenHolder
  marked = record (reset (s.holders 0)) { last_was_white = not (failed (s.holders 0) w) }

  next_round-has : (i : ℕ) → i < n → (next_round.holders i).has_token ≡ (i == 0)
  next_round-has i low =
      update-ap (λ t. t.has_token) s.holders 0 marked i
      ∙ update_id (λ t. (s.holders t).has_token) 0 i
      ∙ inv.token_at i low
      ∙ ap (λ t. i == t) all_passed.1

  round-Tracked :
      (black master : Bool) (i : ℕ)
      → i < n
      → Tracked (again g w) black master i ((recirculate next_round 0).holders i).process_is_black
  round-Tracked black master i low = elim (Bool-cases (0 == i)) [
    | inl here ↦
        let at_i : 0 ≡ i = ground arith in
        subst
          (λ k.
            Tracked (again g w) black master k
              ((recirculate next_round 0).holders k).process_is_black)
          at_i (Tracked-again_same g w black master _)
    | inr other ↦
        let ne : i ≢ 0 = λ e. ground arith in
        subst (Tracked (again g w) black master i)
          (sym (
            recirculate-process_other next_round 0 i ne
            ∙ ap (λ t. t.process_is_black) (update_other s.holders 0 marked i ne)))
          (Tracked-again_other g w (s.holders 0).token_is_black black (s.holders 0).process_is_black
            master i (s.holders i).process_is_black (Passed-all i low ne) (Tracked-at i low))
  ]

  round-white :
      failed (s.holders 0) w ≡ false
      → (i : ℕ) → i < n
      → ((again g w).early i ≡ false) × (called i (again g w).round ≡ true)
  round-white clean i low =
      let black = (s.holders 0).token_is_black in
      let master = (s.holders 0).process_is_black in
      let (token_white, rest) = or_false black (master || w) clean in
      let (master_white, w_false) = or_false master w rest in
      elim (Bool-cases (0 == i)) [
        | inl here ↦
            let at_i : 0 ≡ i = ground arith in
            subst (λ k. ((again g w).early k ≡ false) × (called k (again g w).round ≡ true)) at_i
              (again-white_same g w black master w_false master_white (Tracked-at 0 pos))
        | inr other ↦
            again-white_other g w black master i (s.holders i).process_is_black token_white
              master_white (Passed-all i low (λ e. ground arith)) (Tracked-at i low)
      ]

  pub again-Inv :
      ((s.holders 0).last_was_white && not (failed (s.holders 0) w)) ≡ false
      → Inv n (local_termination s 0 w) (h ++ (0, w) ∷ []) (again g w)
  again-Inv not_done =
      subst (λ t. Inv n t (h ++ (0, w) ∷ []) (again g w))
        (sym (local_termination_again s 0 w token (ground arith) not_done))
        (record {
          split =
              split_more n s h g inv 0 w pos
              ∙ sym (append-nil (g.past ++ g.round ++ (g.since ++ (0, w) ∷ [])));
          threads = (recirculate_frame next_round 0).0 ∙ inv.threads;
          running = (recirculate_frame next_round 0).1 ∙ inv.running;
          turn_low = ground arith;
          turn_high = pos;
          token_at = λ i low.
              recirculate-moves next_round 0 i (next_round-has i low)
              ∙ ap (λ t. i == 1 % t) inv.threads;
          tracked = λ i low. round-Tracked _ _ i low;
          white = λ last _. round-white (
              negated (failed (s.holders 0) w) (
                sym (
                  recirculate-last next_round 0 0
                  ∙ ap (λ t. t.last_was_white) (update_same s.holders 0 marked))
                ∙ last));
        })

  late_quiet :
      (s.holders 0).token_is_black ≡ false
      → (s.holders 0).process_is_black ≡ false
      → (i : ℕ) → i < n
      → g.late i ≡ false
  late_quiet token_white master_white i low = elim (Bool-cases (0 == i)) [
    | inl here ↦
        let at_i : 0 ≡ i = ground arith in
        subst (λ k. g.late k ≡ false) at_i
          ((Tracked-at 0 pos).waiting (λ p. ground arith) master_white).0
    | inr other ↦
        ((Tracked-at i low).passed_white (Passed-all i low (λ e. ground arith)) token_white).0
  ]

  -- The call that ends the run: the last complete round was without work.
  pub done-HadQuiet :
      ((s.holders 0).last_was_white && not (failed (s.holders 0) w)) ≡ true
      → HadQuiet n (h ++ (0, w) ∷ [])
  done-HadQuiet done =
      let (last, clean) = split_test (s.holders 0).last_was_white (failed (s.holders 0) w) done in
      let (token_white, rest) =
        or_false (s.holders 0).token_is_black ((s.holders 0).process_is_black || w) clean in
      let master_white = (or_false (s.holders 0).process_is_black w rest).0 in
      record {
        before = g.past;
        quiet = g.round;
        after = g.since ++ (0, w) ∷ [];
        split = split_more n s h g inv 0 w pos;
        all_called = λ i low. (inv.white last master_white i low).1;
        none_worked = λ i low.
            (Tracked-at i low).round_split (inv.white last master_white i low).0
              (late_quiet token_white master_white i low);
      }
