-- ===== src/Termination/Step.antt =====
-- Every call of `localTermination` of libcoro/include/galois/substrate/Termination.h that does not
-- end the run keeps the invariant.
use corograph.Base.{
  ℕ, suc, ◌≡◌, ◌≢◌, sym, ap, ap₂, ◌∙◌, subst, Bool, true, false, ◌||◌, ◌%◌, ◌<◌, ◌≤◌, List, [], ◌∷◌,
  ◌++◌, ◌==◌, or_false, arith, update_same, update_other, update-ap, update_id, Bool-cases, inl,
  inr, append_assoc,
}
use corograph.Termination.{Detection, with_holder, recirculate, local_termination}
use corograph.Termination.Invariant.{Ghost, Tracked, place, place_cases, Inv}
use corograph.Termination.Track.{
  idle, Tracked-idle_other, Tracked-idle_same, passed_on, Tracked-pass_other, Tracked-pass_same,
}
use corograph.Termination.Ring.{
  note, local_termination_idle, local_termination_pass, recirculate-token, recirculate-last,
  recirculate-process_other, recirculate-process_same, recirculate-moves, recirculate_frame,
}

module _ (n : ℕ) (s : Detection) (h : List (ℕ × Bool)) (g : Ghost) (inv : Inv n s h g) (id : ℕ)
    (w : Bool) (small : id < n) where
  abbrev noted : Detection
  noted = with_holder s id (note (s.holders id) w)

  pub split_more : h ++ (id, w) ∷ [] ≡ g.past ++ g.round ++ (g.since ++ (id, w) ∷ [])
  split_more =
      ap (λ t. t ++ (id, w) ∷ []) inv.split
      ∙ append_assoc (g.past ++ g.round) g.since ((id, w) ∷ [])

  noted-less : (noted.holders 0).process_is_black ≡ false → (s.holders 0).process_is_black ≡ false
  noted-less e =
      let seen =
        sym (update-ap (λ t. t.process_is_black) s.holders id (note (s.holders id) w) 0) ∙ e in
      elim (Bool-cases (0 == id)) [
        | inl here ↦
            let at_id : id ≡ 0 = ground arith in
            subst (λ k. (s.holders k).process_is_black ≡ false) at_id
              (or_false (s.holders id).process_is_black w (rw here at seen)).0
        | inr other ↦ rw other at seen
      ]

  noted-Tracked :
      (i : ℕ)
      → i < n
      → Tracked
          (idle g id w)
          (s.holders (place n g.turn)).token_is_black
          (noted.holders 0).process_is_black
          i
          (noted.holders i).process_is_black
  noted-Tracked i low =
      let black = (s.holders (place n g.turn)).token_is_black in
      let master = (s.holders 0).process_is_black in
      let master2 = (noted.holders 0).process_is_black in
      elim (Bool-cases (id == i)) [
        | inl here ↦
            let at_i : id ≡ i = ground arith in
            subst (λ k. Tracked (idle g id w) black master2 k (noted.holders k).process_is_black)
              at_i
              (subst (λ t. Tracked (idle g id w) black master2 id t.process_is_black)
                (sym (update_same s.holders id (note (s.holders id) w)))
                (Tracked-idle_same g id w black master master2 (s.holders id).process_is_black
                  noted-less (inv.tracked id small)))
        | inr other ↦
            subst (λ t. Tracked (idle g id w) black master2 i t.process_is_black)
              (sym (update_other s.holders id (note (s.holders id) w) i (λ e. ground arith)))
              (Tracked-idle_other g id w black master master2 i (s.holders i).process_is_black
                (λ e. ground arith) noted-less (inv.tracked i low))
      ]

  pub token_holder : (s.holders id).has_token ≡ true → id ≡ place n g.turn
  token_holder token =
      let here : (id == place n g.turn) ≡ true = sym (inv.token_at id small) ∙ token in ground arith

  pub idle-Inv :
      (s.holders id).has_token ≡ false
      → Inv n (local_termination s id w) (h ++ (id, w) ∷ []) (idle g id w)
  idle-Inv no_token =
      subst (λ t. Inv n t (h ++ (id, w) ∷ []) (idle g id w))
        (sym (local_termination_idle s id w no_token))
        (record {
          split = split_more;
          threads = inv.threads;
          running = inv.running;
          turn_low = inv.turn_low;
          turn_high = inv.turn_high;
          token_at = λ i low.
              update-ap (λ t. t.has_token) s.holders id (note (s.holders id) w) i
              ∙ update_id (λ t. (s.holders t).has_token) id i
              ∙ inv.token_at i low;
          tracked = λ i low.
              let here_not : (id == place n g.turn) ≡ false =
                sym (inv.token_at id small) ∙ no_token in
              let kept =
                update_other s.holders id (note (s.holders id) w) (place n g.turn)
                  (λ e. ground arith) in
              subst
                (λ t.
                  Tracked (idle g id w) t.token_is_black (noted.holders 0).process_is_black i
                    (noted.holders i).process_is_black)
                (sym kept) (noted-Tracked i low);
          white = λ last calm.
              inv.white
                (sym (
                    update-ap (λ t. t.last_was_white) s.holders id (note (s.holders id) w) 0
                    ∙ update_id (λ t. (s.holders t).last_was_white) id 0)
                  ∙ last)
                (noted-less calm);
        })

  -- A thread that is not the master passes the token on.
  module _ (token : (s.holders id).has_token ≡ true) (pos : 0 < id) where
    at_turn : (g.turn ≡ id) × (place n (suc g.turn) ≡ suc id % s.active_threads)
    at_turn = elim (place_cases n g.turn inv.turn_high) [
      | inl (_, e) ↦ absurd (let here = token_holder token in ground arith)
      | inr (_, e) ↦
          let same : g.turn ≡ id = sym (token_holder token ∙ e) in
          (same, ap₂ (λ a b. suc a % b) same (sym inv.threads))
    ]

    noted-has : (i : ℕ) → i < n → (noted.holders i).has_token ≡ (i == id)
    noted-has i low =
        update-ap (λ t. t.has_token) s.holders id (note (s.holders id) w) i
        ∙ update_id (λ t. (s.holders t).has_token) id i
        ∙ inv.token_at i low
        ∙ ap (λ t. i == t) (sym (token_holder token))

    taint :
        ((recirculate noted id).holders (place n (suc g.turn))).token_is_black
        ≡ (((s.holders id).process_is_black || w) || (s.holders (place n g.turn)).token_is_black)
    taint =
        ap (λ t. ((recirculate noted id).holders t).token_is_black) at_turn.1
        ∙ recirculate-token noted id
        ∙ ap (λ t. t.process_is_black || t.token_is_black)
            (update_same s.holders id (note (s.holders id) w))
        ∙ ap (λ t. ((s.holders id).process_is_black || w) || (s.holders t).token_is_black)
            (token_holder token)

    untouched :
        (i : ℕ)
        → i ≢ id
        → ((recirculate noted id).holders i).process_is_black ≡ (s.holders i).process_is_black
    untouched i ne =
        recirculate-process_other noted id i ne
        ∙ ap (λ t. t.process_is_black) (update_other s.holders id (note (s.holders id) w) i ne)

    pass-Tracked :
        (i : ℕ)
        → i < n
        → Tracked
            (passed_on g id w)
            (((s.holders id).process_is_black || w) || (s.holders (place n g.turn)).token_is_black)
            (s.holders 0).process_is_black
            i
            ((recirculate noted id).holders i).process_is_black
    pass-Tracked i low =
        let black = (s.holders (place n g.turn)).token_is_black in
        let master = (s.holders 0).process_is_black in
        let fresh = ((s.holders id).process_is_black || w) || black in
        elim (Bool-cases (id == i)) [
          | inl here ↦
              let at_i : id ≡ i = ground arith in
              subst
                (λ k.
                  Tracked (passed_on g id w) fresh master k
                    ((recirculate noted id).holders k).process_is_black)
                at_i
                (subst (Tracked (passed_on g id w) fresh master id)
                  (sym (recirculate-process_same noted id))
                  (Tracked-pass_same g id w black master (s.holders id).process_is_black pos
                    at_turn.0 (inv.tracked id small)))
          | inr other ↦
              subst (Tracked (passed_on g id w) fresh master i)
                (sym (untouched i (λ e. ground arith)))
                (Tracked-pass_other g id w black ((s.holders id).process_is_black || w) master i
                  (s.holders i).process_is_black (λ e. ground arith) at_turn.0 (inv.tracked i low))
        ]

    pub pass-Inv : Inv n (local_termination s id w) (h ++ (id, w) ∷ []) (passed_on g id w)
    pass-Inv =
        subst (λ t. Inv n t (h ++ (id, w) ∷ []) (passed_on g id w))
          (sym (local_termination_pass s id w token (ground arith)))
          (record {
            split = split_more;
            threads = (recirculate_frame noted id).0 ∙ inv.threads;
            running = (recirculate_frame noted id).1 ∙ inv.running;
            turn_low = ground arith;
            turn_high = subst (λ t. suc t ≤ n) (sym at_turn.0) small;
            token_at = λ i low.
                recirculate-moves noted id i (noted-has i low) ∙ ap (λ t. i == t) (sym at_turn.1);
            tracked = λ i low.
                subst
                  (λ b.
                    Tracked (passed_on g id w) b ((recirculate noted id).holders 0).process_is_black
                      i ((recirculate noted id).holders i).process_is_black)
                  (sym taint)
                  (subst
                    (λ b.
                      Tracked (passed_on g id w)
                        (((s.holders id).process_is_black || w)
                          || (s.holders (place n g.turn)).token_is_black)
                        b i ((recirculate noted id).holders i).process_is_black)
                    (sym (untouched 0 (λ e. ground arith))) (pass-Tracked i low));
            white = λ last calm.
                inv.white
                  (sym (
                      recirculate-last noted id 0
                      ∙ update-ap (λ t. t.last_was_white) s.holders id (note (s.holders id) w) 0
                      ∙ update_id (λ t. (s.holders t).last_was_white) id 0)
                    ∙ last)
                  (sym (untouched 0 (λ e. ground arith)) ∙ calm);
          })
