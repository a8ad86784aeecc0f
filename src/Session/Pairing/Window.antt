-- ===== src/Session/Pairing/Window.antt =====
-- The pairing window of pairing.rs: which proof it takes, how often, and from whom.
use anyflow.Prelude.{
  ℕ, ◌+◌, ◌-◌, ◌<◌, ◌≤◌, ◌≡◌, ◌↔◌, refl, sym, Bool, true, false, List, [], ◌∷◌, length, keep, leb,
  Bytes, Result, ok, err, Bool-cases, inl, inr, ==_iff, arith, is_ok, ◌^◌, ◌≢◌,
}
use anyflow.Session.Pairing.{
  Crypto, PairingSession, PairingError, bad_proof, proof_domain, confirm_domain,
  max_failed_attempts, mac_message, is_expired, is_exhausted, mac, compute_proof,
  compute_confirmation, verify_proof, verify_and_consume,
}
use anyflow.Session.Pairing.Message.{mac_message-injective, mac_message-domains}

-- A call of the window: the time, and the four arguments.
pub record Attempt : Type 0 where
  pub now : ℕ
  pub responder : Bytes
  pub initiator : Bytes
  pub nonce : Bytes
  pub received_proof : Bytes

abbrev pub is_bad_proof : Result Bytes PairingError → Bool
is_bad_proof (err bad_proof) = true
is_bad_proof _ = false

-- What a call does to the window, with its answer.
data Outcome (s : PairingSession) (r : PairingSession × Result Bytes PairingError) : Type 0 where
  refused : r.0 ≡ s → is_ok r.1 ≡ false → is_bad_proof r.1 ≡ false → Outcome s r
  failed :
      s.consumed ≡ false
      → s.failed_attempts < max_failed_attempts
      → r.0.failed_attempts ≡ s.failed_attempts + 1
      → is_ok r.1 ≡ false
      → is_bad_proof r.1 ≡ true
      → Outcome s r
  taken :
      s.consumed ≡ false
      → r.0.consumed ≡ true
      → is_ok r.1 ≡ true
      → is_bad_proof r.1 ≡ false
      → Outcome s r

module _ (c : Crypto) where
  pub verify_proof_iff :
      (expected received : Bytes)
      → (verify_proof c expected received ≡ true) ↔ (received ≡ expected)
  unfolding verify_proof
  verify_proof_iff expected received =
      ground (arith, c.ct_eq_iff expected received, ==_iff (length received) (length expected))

  -- A proof is taken exactly when the window is still good and the proof is the one for these two
  -- devices and this nonce; the answer is then the confirmation, and the window is used up.
  pub verify_and_consume_ok_iff :
      (s after : PairingSession) (now : ℕ) (responder initiator nonce received t : Bytes)
      → (verify_and_consume c s now responder initiator nonce received ≡ (after, ok t)) ↔ (
          (is_exhausted s now ≡ false)
          × ((received ≡ compute_proof c s.token responder initiator nonce)
              × ((after ≡ record s { consumed = true })
                  × (t ≡ compute_confirmation c s.token responder initiator nonce))))
  unfolding verify_and_consume is_exhausted is_expired
  verify_and_consume_ok_iff s after now responder initiator nonce received t =
      ground (arith, verify_proof_iff (compute_proof c s.token responder initiator nonce) received)

  call : PairingSession → Attempt → PairingSession × Result Bytes PairingError
  call s a = verify_and_consume c s a.now a.responder a.initiator a.nonce a.received_proof

  call-Outcome : (s : PairingSession) (a : Attempt) → Outcome s (call s a)
  unfolding call verify_and_consume
  call-Outcome s a =
      let right =
        verify_proof c (compute_proof c s.token a.responder a.initiator a.nonce) a.received_proof in
      elim (Bool-cases s.consumed) [
        | inl u ↦ refused (ground arith) (ground arith) (ground arith)
        | inr u ↦ elim (Bool-cases (is_expired s a.now)) [
          | inl x ↦ refused (ground arith) (ground arith) (ground arith)
          | inr x ↦ elim (Bool-cases (leb max_failed_attempts s.failed_attempts)) [
            | inl f ↦ refused (ground arith) (ground arith) (ground arith)
            | inr f ↦ elim (Bool-cases right) [
              | inl r ↦ taken u (ground arith) (ground arith) (ground arith)
              | inr r ↦ failed u (ground arith) (ground arith) (ground arith) (ground arith)
            ]
          ]
        ]
      ]

  -- The answers of a window to a sequence of attempts, in order.
  unfoldable pub answers : PairingSession → List Attempt → List (Result Bytes PairingError)
  unfolding call
  answers s [] = []
  answers s (a ∷ rest) = (call s a).1 ∷ answers (call s a).0 rest

  used_up-answers :
      (s : PairingSession) (attempts : List Attempt)
      → s.consumed ≡ true
      → (length (keep is_ok (answers s attempts)) ≡ 0)
        × (length (keep is_bad_proof (answers s attempts)) ≡ 0)
  unfolding answers
  used_up-answers s [] u = (refl, refl)
  used_up-answers s (a ∷ rest) u = elim (call-Outcome s a) [
    | refused kept good bad ↦ simp (kept, good, bad) (used_up-answers s rest u)
    | failed fresh n m good bad ↦ cc
    | taken fresh used good bad ↦ cc
  ]

  -- Over any sequence of attempts a window takes at most one proof, and answers at most three less
  -- the failures so far with a refused proof.
  pub answers_budget :
      (s : PairingSession) (attempts : List Attempt)
      → (length (keep is_ok (answers s attempts)) ≤ 1)
        × (length (keep is_bad_proof (answers s attempts))
            ≤ max_failed_attempts - s.failed_attempts)
  unfolding answers
  answers_budget s [] = (omega arith, omega arith)
  answers_budget s (a ∷ rest) = elim (call-Outcome s a) [
    | refused kept good bad ↦ simp (kept, good, bad) (answers_budget s rest)
    | failed fresh n m good bad ↦
        let (one, few) = answers_budget (call s a).0 rest in simp (good, bad) (one, omega arith)
    | taken fresh used good bad ↦
        let (none_left, none_bad) = used_up-answers (call s a).0 rest used in
        simp (good, bad, none_left, none_bad) (omega arith, omega arith)
  ]

  -- A proof made for one responder, one initiator and one nonce is taken by no other window with
  -- the token for any other three, provided that the MAC does not collide on these two messages.
  pub proof-is_bound :
      (s : PairingSession) (now : ℕ) (r i n r' i' n' : Bytes)
      → length r < 2 ^ 32
      → length i < 2 ^ 32
      → length n < 2 ^ 32
      → length r' < 2 ^ 32
      → length i' < 2 ^ 32
      → length n' < 2 ^ 32
      → (c.hmac s.token (mac_message proof_domain r i n)
            ≡ c.hmac s.token (mac_message proof_domain r' i' n')
          → mac_message proof_domain r i n ≡ mac_message proof_domain r' i' n')
      → is_ok (verify_and_consume c s now r' i' n' (compute_proof c s.token r i n)).1 ≡ true
      → (r ≡ r') × ((i ≡ i') × (n ≡ n'))
  unfolding verify_and_consume compute_proof mac
  proof-is_bound s now r i n r' i' n' hr hi hn hr' hi' hn' no_collision good =
      let matches : compute_proof c s.token r i n ≡ compute_proof c s.token r' i' n' = ground (
        arith,
        verify_proof_iff (compute_proof c s.token r' i' n') (compute_proof c s.token r i n),
      ) in
      mac_message-injective proof_domain r i n r' i' n' hr hi hn hr' hi' hn' (no_collision matches)

  -- The responder's own confirmation, sent back to it, is no proof, for whatever devices and nonce
  -- it was made, provided that the MAC does not collide on these two messages.
  pub confirmation-is_no_proof :
      (s : PairingSession) (now : ℕ) (r i n r' i' n' : Bytes)
      → (c.hmac s.token (mac_message confirm_domain r i n)
            ≡ c.hmac s.token (mac_message proof_domain r' i' n')
          → mac_message confirm_domain r i n ≡ mac_message proof_domain r' i' n')
      → is_ok (verify_and_consume c s now r' i' n' (compute_confirmation c s.token r i n)).1 ≡ false
  unfolding verify_and_consume compute_proof compute_confirmation mac
  confirmation-is_no_proof s now r i n r' i' n' no_collision =
      let wrong : compute_confirmation c s.token r i n ≢ compute_proof c s.token r' i' n' =
        λ e. mac_message-domains r' i' n' r i n (sym (no_collision e)) in
      ground (
        arith,
        verify_proof_iff (compute_proof c s.token r' i' n') (compute_confirmation c s.token r i n),
      )
