-- ===== src/Termination/Ring.antt =====
-- What one call of `localTermination` of libcoro/include/galois/substrate/Termination.h does to the
-- holders.
use corograph.Base.{
  ℕ, suc, ◌≡◌, ◌≢◌, refl, ap, ◌∙◌, Bool, true, false, not, ◌||◌, ◌&&◌, ◌%◌, ◌==◌, if◌then◌else◌,
  update, update-ap, update_id, update_same, arith, Bool-cases, inl, inr,
}
use corograph.Termination.{TokenHolder, Detection, with_holder, recirculate, local_termination}

-- The call without the token: only the report is noted.
abbrev pub note : TokenHolder → Bool → TokenHolder
note th work_happened = record th { process_is_black = th.process_is_black || work_happened }

abbrev pub failed : TokenHolder → Bool → Bool
failed th work_happened = th.token_is_black || (th.process_is_black || work_happened)

abbrev pub reset : TokenHolder → TokenHolder
reset th = record th { token_is_black = false; process_is_black = false }

module _ (s : Detection) (id : ℕ) (w : Bool) where
  pub local_termination_idle :
      (s.holders id).has_token ≡ false
      → local_termination s id w ≡ with_holder s id (note (s.holders id) w)
  unfolding local_termination
  local_termination_idle no_token = rw no_token

  pub local_termination_pass :
      (s.holders id).has_token ≡ true
      → (id == 0) ≡ false
      → local_termination s id w ≡ recirculate (with_holder s id (note (s.holders id) w)) id
  unfolding local_termination
  local_termination_pass token other = rw (token, other)

  pub local_termination_again :
      (s.holders id).has_token ≡ true
      → (id == 0) ≡ true
      → ((s.holders id).last_was_white && not (failed (s.holders id) w)) ≡ false
      → local_termination s id w
        ≡ recirculate
            (with_holder s id
              (record (reset (s.holders id)) { last_was_white = not (failed (s.holders id) w) }))
            id
  unfolding local_termination
  local_termination_again token master again = rw (token, master, again)

  pub local_termination_done :
      (s.holders id).has_token ≡ true
      → (id == 0) ≡ true
      → ((s.holders id).last_was_white && not (failed (s.holders id) w)) ≡ true
      → (local_termination s id w).global_term ≡ true
  unfolding local_termination
  local_termination_done token master done = rw (token, master, done) refl

module _ (s : Detection) (id : ℕ) where
  -- The holders after the first write of `recirculate`.
  abbrev cleared : ℕ → TokenHolder
  cleared = update s.holders id (record (s.holders id) {
    token_is_black = false;
    has_token = false;
    process_is_black = false;
  })

  abbrev next : ℕ
  next = suc id % s.active_threads

  pub recirculate-process :
      (j : ℕ)
      → ((recirculate s id).holders j).process_is_black
        ≡ (if j == id then false else (s.holders j).process_is_black)
  unfolding recirculate
  recirculate-process j =
      update-ap (λ t. t.process_is_black) cleared next _ j
      ∙ update_id (λ t. (cleared t).process_is_black) next j
      ∙ update-ap (λ t. t.process_is_black) s.holders id _ j

  pub recirculate-token :
      ((recirculate s id).holders (suc id % s.active_threads)).token_is_black
      ≡ ((s.holders id).process_is_black || (s.holders id).token_is_black)
  unfolding recirculate
  recirculate-token = ap (λ t. t.token_is_black) (update_same cleared next _)

  pub recirculate-has :
      (j : ℕ)
      → ((recirculate s id).holders j).has_token ≡ (
          if j == suc id % s.active_threads
          then true
          else (if j == id then false else (s.holders j).has_token))
  unfolding recirculate
  recirculate-has j =
      update-ap (λ t. t.has_token) cleared next _ j
      ∙ ap (λ t. if j == next then true else t) (update-ap (λ t. t.has_token) s.holders id _ j)

  pub recirculate-last :
      (j : ℕ) → ((recirculate s id).holders j).last_was_white ≡ (s.holders j).last_was_white
  unfolding recirculate
  recirculate-last j =
      update-ap (λ t. t.last_was_white) cleared next _ j
      ∙ update_id (λ t. (cleared t).last_was_white) next j
      ∙ update-ap (λ t. t.last_was_white) s.holders id _ j
      ∙ update_id (λ t. (s.holders t).last_was_white) id j

  pub recirculate-process_other :
      (j : ℕ)
      → j ≢ id
      → ((recirculate s id).holders j).process_is_black ≡ (s.holders j).process_is_black
  recirculate-process_other j ne =
      let other : (j == id) ≡ false = ground arith in recirculate-process j ∙ rw other refl

  pub recirculate-process_same : ((recirculate s id).holders id).process_is_black ≡ false
  recirculate-process_same =
      let here : (id == id) ≡ true = ground arith in recirculate-process id ∙ rw here refl

  -- The token is with the next thread and no other, if it was with this one and no other.
  pub recirculate-moves :
      (j : ℕ)
      → (s.holders j).has_token ≡ (j == id)
      → ((recirculate s id).holders j).has_token ≡ (j == suc id % s.active_threads)
  recirculate-moves j only =
      recirculate-has j
      ∙ ap (λ t. if j == next then true else (if j == id then false else t)) only
      ∙ elim (Bool-cases (j == next)) [
        | inl here ↦ rw here refl
        | inr other ↦
            rw other
              (elim (Bool-cases (j == id)) [ inl old ↦ rw old refl | inr none ↦ rw none refl ])
      ]

  pub recirculate_frame :
      ((recirculate s id).active_threads ≡ s.active_threads)
      × ((recirculate s id).global_term ≡ s.global_term)
  unfolding recirculate
  recirculate_frame = (refl, refl)
