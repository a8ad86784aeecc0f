-- ===== src/Session/Pairing.antt =====
-- desktop/core/src/pairing.rs: the proof that a peer has read the QR code, and the window in which
-- one is taken. HMAC-SHA256 and the constant-time comparison are those of the `hmac` and `subtle`
-- crates, and stand here as parameters. Time is a number of ticks, given to each call.
pub mod Message
pub mod Window
pub mod Examples
use anyflow.Prelude.{
  to_be_bytes, ℕ, ◌+◌, ◌-◌, ◌/◌, ◌%◌, ◌^◌, ◌≡◌, ◌↔◌, Bool, true, false, not, ◌||◌, List, [], ◌∷◌,
  ◌++◌, length, leb, ◌==◌, if◌then◌else◌, Bytes, Result, ok, err, saturating_add,
}

-- What the code relies on from the crates: slices of one length compare equal when they are equal.
pub record Crypto : Type 0 where
  pub hmac : Bytes → Bytes → Bytes
  pub ct_eq : Bytes → Bytes → Bool
  pub ct_eq_iff : (a b : Bytes) → length a ≡ length b → (ct_eq a b ≡ true) ↔ (a ≡ b)

-- b"omnibridge/pairing-proof/v1" and b"omnibridge/pairing-confirm/v1"
abbrev pub domain_head : Bytes
domain_head =
    b'o' ∷ b'm' ∷ b'n' ∷ b'i' ∷ b'b' ∷ b'r' ∷ b'i' ∷ b'd' ∷ b'g' ∷ b'e' ∷ b'/' ∷ b'p' ∷ b'a' ∷ b'i'
    ∷ b'r' ∷ b'i' ∷ b'n' ∷ b'g' ∷ b'-' ∷ []

abbrev pub proof_domain : Bytes
proof_domain = domain_head ++ b'p' ∷ b'r' ∷ b'o' ∷ b'o' ∷ b'f' ∷ b'/' ∷ b'v' ∷ b'1' ∷ []

abbrev pub confirm_domain : Bytes
confirm_domain =
    domain_head ++ b'c' ∷ b'o' ∷ b'n' ∷ b'f' ∷ b'i' ∷ b'r' ∷ b'm' ∷ b'/' ∷ b'v' ∷ b'1' ∷ []

abbrev pub max_failed_attempts : ℕ
max_failed_attempts = 3

-- `(data.len() as u32).to_be_bytes()`, then the data
pub update_len_prefixed : Bytes → Bytes
unfolding to_be_bytes
update_len_prefixed field = to_be_bytes (length field % 2 ^ 32) ++ field

-- What the calls of `update` feed to the MAC, put together.
pub mac_message : Bytes → Bytes → Bytes → Bytes → Bytes
unfolding update_len_prefixed
mac_message domain responder initiator nonce =
    domain
    ++ (update_len_prefixed responder
        ++ (update_len_prefixed initiator ++ update_len_prefixed nonce))

pub data PairingError : Type 0 where
  not_in_pairing_mode bad_proof expired already_used rate_limited declined_by_user : PairingError

pub record PairingSession : Type 0 where
  pub token : Bytes
  pub opened_at : ℕ
  pub ttl : ℕ
  pub failed_attempts : ℕ  -- u32
  pub consumed : Bool

-- The token is drawn by the caller: it comes from the system's random numbers.
unfoldable pub new : Bytes → ℕ → ℕ → PairingSession
new token now ttl = record {
  token = token;
  opened_at = now;
  ttl = ttl;
  failed_attempts = 0;
  consumed = false;
}

abbrev pub elapsed : PairingSession → ℕ → ℕ
elapsed s now = now - s.opened_at

unfoldable pub is_expired : PairingSession → ℕ → Bool
is_expired s now = leb s.ttl (elapsed s now)

-- `saturating_sub`
pub remaining : PairingSession → ℕ → ℕ
remaining s now = s.ttl - elapsed s now

unfoldable pub is_exhausted : PairingSession → ℕ → Bool
unfolding is_expired
is_exhausted s now = s.consumed || is_expired s now || leb max_failed_attempts s.failed_attempts

module _ (c : Crypto) where
  pub mac : Bytes → Bytes → Bytes → Bytes → Bytes → Bytes
  mac domain token responder initiator nonce =
      c.hmac token (mac_message domain responder initiator nonce)

  pub compute_proof : Bytes → Bytes → Bytes → Bytes → Bytes
  unfolding mac
  compute_proof token responder initiator nonce = mac proof_domain token responder initiator nonce

  pub compute_confirmation : Bytes → Bytes → Bytes → Bytes → Bytes
  unfolding mac
  compute_confirmation token responder initiator nonce =
      mac confirm_domain token responder initiator nonce

  pub verify_proof : Bytes → Bytes → Bool
  verify_proof expected received =
      if not (length received == length expected) then false else c.ct_eq expected received

  pub verify_and_consume :
      PairingSession
      → ℕ
      → Bytes
      → Bytes
      → Bytes
      → Bytes
      → PairingSession × Result Bytes PairingError
  unfolding verify_proof is_expired compute_proof compute_confirmation
  verify_and_consume s now responder initiator nonce received_proof =
      if s.consumed
      then (s, err already_used)
      else if is_expired s now
      then (s, err expired)
      else if leb max_failed_attempts s.failed_attempts
      then (s, err rate_limited)
      else if not (verify_proof (compute_proof s.token responder initiator nonce) received_proof)
      then (record s { failed_attempts = s.failed_attempts + 1 }, err bad_proof)
      else (
        record s { consumed = true },
        ok (compute_confirmation s.token responder initiator nonce),
      )
