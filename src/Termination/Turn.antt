-- ===== src/Termination/Turn.antt =====
-- One round of the token of libcoro/include/galois/substrate/Termination.h without work.
use corograph.Base.{
  ℕ, zero, suc, ◌+◌, ◌≡◌, ◌≢◌, refl, sym, ap, ◌∙◌, subst, Bool, true, false, not, ◌||◌, ◌&&◌, ◌%◌,
  ◌<◌, List, [], ◌∷◌, ◌++◌, ◌==◌, update_same, update_other, update-ap, update_id, arith,
  Bool-cases, inl, inr, ◌⊎◌,
}
use native.Mathlib.Nat.{mod_self, mod-eq_of_lt}
use corograph.Termination.{TokenHolder, Detection, with_holder, recirculate, local_termination}
use corograph.Termination.Ring.{
  note, failed, reset, local_termination_pass, local_termination_again, local_termination_done,
  recirculate-token, recirculate-last, recirculate-process_other, recirculate-process_same,
  recirculate-moves, recirculate_frame,
}

-- `m` calls, of the threads `k`, `k + 1`, … in this order.
abbrev pub calls_from : ℕ → ℕ → List ℕ
calls_from k zero = []
calls_from k (suc m) = k ∷ calls_from (suc k) m

-- Whether `globalTermination` answers true before one of these calls, which report no work, or
-- after them.
abbrev pub ends : List ℕ → Detection → Bool
ends [] s = s.global_term
ends (id ∷ ids) s = s.global_term || ends ids (local_termination s id false)

-- The token is with `k`, or with the master when `k` is the number of threads; the threads below `k`
-- are white; and if `clean` all are, and the token too.
pub record AtTurn (n k : ℕ) (clean last : Bool) (s : Detection) : Type 0 where
  pub threads : s.active_threads ≡ n
  pub running : s.global_term ≡ false
  pub token : (i : ℕ) → i < n → (s.holders i).has_token ≡ (i == k % n)
  pub white : (i : ℕ) → i < k → (s.holders i).process_is_black ≡ false
  pub all_white : clean ≡ true → (i : ℕ) → i < n → (s.holders i).process_is_black ≡ false
  pub token_white : clean ≡ true → (s.holders (k % n)).token_is_black ≡ false
  pub last_white : (s.holders 0).last_was_white ≡ last

pub or_right : (a : Bool) {b : Bool} → b ≡ true → (a || b) ≡ true
or_right true e = refl
or_right false e = e

pub ends_done : (ids : List ℕ) (s : Detection) → s.global_term ≡ true → ends ids s ≡ true
ends_done [] s e = e
ends_done (id ∷ ids) s e = rw e refl

-- After a call without work the caller is white.
white_after :
    (s : Detection) (k i : ℕ)
    → (i ≢ k → (s.holders i).process_is_black ≡ false)
    → ((recirculate (with_holder s k (note (s.holders k) false)) k).holders i).process_is_black
      ≡ false
white_after s k i others =
    let noted = with_holder s k (note (s.holders k) false) in
    elim (Bool-cases (k == i)) [
      | inl here ↦
          let same : k ≡ i = ground arith in
          subst (λ t. ((recirculate noted k).holders t).process_is_black ≡ false) same
            (recirculate-process_same noted k)
      | inr other ↦
          recirculate-process_other noted k i (λ e. ground arith)
          ∙ ap (λ t. t.process_is_black)
              (update_other s.holders k (note (s.holders k) false) i (λ e. ground arith))
          ∙ others (λ e. ground arith)
    ]

-- A thread that is not the master passes the token on.
pass_turn :
    (n k : ℕ) (clean last : Bool) (s : Detection)
    → 0 < k
    → k < n
    → AtTurn n k clean last s
    → AtTurn n (suc k) clean last (local_termination s k false)
pass_turn n k clean last s pos small a =
    let at_k : k % n ≡ k = mod-eq_of_lt small in
    let here : (k == k) ≡ true = ground arith in
    let noted = with_holder s k (note (s.holders k) false) in
    let token = a.token k small ∙ ap (λ t. k == t) at_k ∙ here in
    let next : suc k % n ≡ suc k % s.active_threads = ap (λ t. suc k % t) (sym a.threads) in
    subst (AtTurn n (suc k) clean last)
      (sym (local_termination_pass s k false token (ground arith)))
      (record {
        threads = (recirculate_frame noted k).0 ∙ a.threads;
        running = (recirculate_frame noted k).1 ∙ a.running;
        token = λ i low.
            recirculate-moves noted k i (
              update-ap (λ t. t.has_token) s.holders k (note (s.holders k) false) i
              ∙ update_id (λ t. (s.holders t).has_token) k i
              ∙ a.token i low
              ∙ ap (λ t. i == t) at_k)
            ∙ ap (λ t. i == t) (sym next);
        white = λ i low. white_after s k i (λ ne. a.white i (ground arith));
        all_white = λ c i low. white_after s k i (λ ne. a.all_white c i low);
        token_white = λ c.
            ap (λ t. ((recirculate noted k).holders t).token_is_black) next
            ∙ recirculate-token noted k
            ∙ ap (λ t. t.process_is_black || t.token_is_black)
                (update_same s.holders k (note (s.holders k) false))
            ∙ rw
                (
                  a.all_white c k small,
                  subst (λ t. (s.holders t).token_is_black ≡ false) at_k (a.token_white c),
                )
                refl;
        last_white =
            recirculate-last noted k 0
            ∙ update-ap (λ t. t.last_was_white) s.holders k (note (s.holders k) false) 0
            ∙ update_id (λ t. (s.holders t).last_was_white) k 0
            ∙ a.last_white;
      })

-- The token is with the master; if `clean`, all threads are white.
pub record AtMaster (n : ℕ) (clean : Bool) (s : Detection) : Type 0 where
  pub threads : s.active_threads ≡ n
  pub running : s.global_term ≡ false
  pub token : (i : ℕ) → i < n → (s.holders i).has_token ≡ (i == 0)
  pub all_white : clean ≡ true → (i : ℕ) → i < n → (s.holders i).process_is_black ≡ false

pub turn-AtMaster :
    (n : ℕ) (clean last : Bool) (s : Detection) → AtTurn n n clean last s → AtMaster n true s
turn-AtMaster n clean last s a = record {
  threads = a.threads;
  running = a.running;
  token = λ i low. a.token i low ∙ ap (λ t. i == t) (mod_self n);
  all_white = λ _ i low. a.white i low;
}

-- The master's call ends the run or starts a round.
master_turn :
    (n : ℕ) (clean : Bool) (s : Detection)
    → 0 < n
    → AtMaster n clean s
    → ((local_termination s 0 false).global_term ≡ true)
      ⊎ AtTurn n 1 clean (not (failed (s.holders 0) false)) (local_termination s 0 false)
master_turn n clean s pos a =
    let here : (0 == 0) ≡ true = ground arith in
    let token = a.token 0 pos ∙ here in
    let lost = failed (s.holders 0) false in
    let marked : TokenHolder = record (reset (s.holders 0)) { last_was_white = not lost } in
    let round = with_holder s 0 marked in
    let next : 1 % n ≡ 1 % s.active_threads = ap (λ t. 1 % t) (sym a.threads) in
    elim (Bool-cases ((s.holders 0).last_was_white && not lost)) [
      | inl done ↦ inl (local_termination_done s 0 false token here done)
      | inr again ↦ inr (
          subst (AtTurn n 1 clean (not lost))
            (sym (local_termination_again s 0 false token here again))
            (record {
              threads = (recirculate_frame round 0).0 ∙ a.threads;
              running = (recirculate_frame round 0).1 ∙ a.running;
              token = λ i low.
                  recirculate-moves round 0 i (
                    update-ap (λ t. t.has_token) s.holders 0 marked i
                    ∙ update_id (λ t. (s.holders t).has_token) 0 i
                    ∙ a.token i low)
                  ∙ ap (λ t. i == t) (sym next);
              white = λ i low.
                  let zero_i : 0 ≡ i = ground arith in
                  subst (λ t. ((recirculate round 0).holders t).process_is_black ≡ false) zero_i
                    (recirculate-process_same round 0);
              all_white = λ c i low. elim (Bool-cases (0 == i)) [
                | inl same ↦
                    let zero_i : 0 ≡ i = ground arith in
                    subst (λ t. ((recirculate round 0).holders t).process_is_black ≡ false) zero_i
                      (recirculate-process_same round 0)
                | inr other ↦
                    recirculate-process_other round 0 i (λ e. ground arith)
                    ∙ ap (λ t. t.process_is_black)
                        (update_other s.holders 0 marked i (λ e. ground arith))
                    ∙ a.all_white c i low
              ];
              token_white = λ c.
                  ap (λ t. ((recirculate round 0).holders t).token_is_black) next
                  ∙ recirculate-token round 0
                  ∙ ap (λ t. t.process_is_black || t.token_is_black)
                      (update_same s.holders 0 marked);
              last_white =
                  recirculate-last round 0 0
                  ∙ ap (λ t. t.last_was_white) (update_same s.holders 0 marked);
            }))
    ]

-- The rest of a round.
rest_round :
    (n m k : ℕ) (clean last : Bool) (s : Detection) (ids : List ℕ)
    → k + m ≡ n
    → 0 < k
    → AtTurn n k clean last s
    → ((t : Detection) → AtTurn n n clean last t → ends ids t ≡ true)
    → ends (calls_from k m ++ ids) s ≡ true
rest_round n zero k clean last s ids all pos a later =
    let last_k : k ≡ n = omega (arith, all) in
    later s (subst (λ t. AtTurn n t clean last s) last_k a)
rest_round n (suc m) k clean last s ids all pos a later = or_right s.global_term (
    rest_round n m (suc k) clean last (local_termination s k false) ids (omega (arith, all))
      (omega arith) (pass_turn n k clean last s pos (omega (arith, all)) a) later)

-- A round from the master's call on.
pub one_round :
    (m : ℕ) (clean : Bool) (s : Detection) (ids : List ℕ)
    → AtMaster (suc m) clean s
    → ((t : Detection)
        → AtTurn (suc m) (suc m) clean (not (failed (s.holders 0) false)) t
        → ends ids t ≡ true)
    → ends (calls_from 0 (suc m) ++ ids) s ≡ true
one_round m clean s ids a later =
    or_right s.global_term (elim (master_turn (suc m) clean s (omega arith) a) [
      | inl done ↦ ends_done (calls_from 1 m ++ ids) (local_termination s 0 false) done
      | inr turn ↦
          rest_round (suc m) m 1 clean (not (failed (s.holders 0) false))
            (local_termination s 0 false) ids (omega arith) (omega arith) turn later
    ])
