-- ===== src/Session/Pairing/Examples.antt =====
-- The pairing theorems at work, on a small checksum in place of HMAC.
use anyflow.Prelude.{
  ℕ, ◌+◌, ◌≤◌, ◌-◌, ◌≡◌, refl, true, [], ◌∷◌, length, keep, replicate, Bytes, cmp_bytes, ok, err,
  is_ok, ◌=?◌, =?_iff, bytes_key,
}
use anyflow.Session.Pairing.{
  Crypto, PairingSession, new, max_failed_attempts, is_exhausted, mac_message, compute_proof,
  compute_confirmation, verify_and_consume, bad_proof, already_used,
}
use anyflow.Session.Pairing.Window.{
  Attempt, answers, is_bad_proof, answers_budget, verify_and_consume_ok_iff,
}

abbrev sum : Bytes → ℕ
sum [] = 0
sum (x ∷ xs) = x + sum xs

abbrev checksum : Crypto
checksum = record {
  hmac = λ key message. (sum key + sum message) ∷ replicate 31 0;
  ct_eq = λ a b. a =? b;
  ct_eq_iff = λ a b n. =?_iff a b;
}

abbrev session : PairingSession
session = new (7 ∷ 7 ∷ []) 1000 120

abbrev desktop : Bytes
desktop = 1 ∷ 2 ∷ []

abbrev phone : Bytes
phone = 3 ∷ 4 ∷ []

abbrev nonce : Bytes
nonce = 9 ∷ []

abbrev guess : Attempt
guess = record {
  now = 1010;
  responder = desktop;
  initiator = phone;
  nonce = nonce;
  received_proof = [];
}

abbrev scan : Attempt
scan = record guess { received_proof = compute_proof checksum session.token desktop phone nonce }

tests :
    answers checksum session (guess ∷ scan ∷ scan ∷ [])
    ≡ err bad_proof
      ∷ ok (compute_confirmation checksum session.token desktop phone nonce)
      ∷ err already_used
      ∷ []
unfolding answers new verify_and_consume cmp_bytes mac_message
tests = refl

verify_and_consume_ok_iff_example :
    verify_and_consume checksum session 1010 desktop phone nonce
      (compute_proof checksum session.token desktop phone nonce)
    ≡ (
      record session { consumed = true },
      ok (compute_confirmation checksum session.token desktop phone nonce),
    )
unfolding is_exhausted new
verify_and_consume_ok_iff_example =
    (verify_and_consume_ok_iff checksum session (record session { consumed = true }) 1010 desktop
        phone nonce (compute_proof checksum session.token desktop phone nonce)
        (compute_confirmation checksum session.token desktop phone nonce)).1
      (refl, (refl, (refl, refl)))

answers_budget_example :
    (length (keep is_ok (answers checksum session (guess ∷ scan ∷ scan ∷ []))) ≤ 1)
    × (length (keep is_bad_proof (answers checksum session (guess ∷ scan ∷ scan ∷ [])))
        ≤ max_failed_attempts - session.failed_attempts)
answers_budget_example = answers_budget checksum session (guess ∷ scan ∷ scan ∷ [])
