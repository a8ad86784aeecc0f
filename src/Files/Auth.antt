-- ===== src/Files/Auth.antt =====
-- desktop/capabilities/files/src/auth.rs: the MAC that ties a data stream to a transfer. HMAC-SHA256
-- and the constant-time comparison are the crates' that pairing uses.
pub mod Bound
use anyflow.Prelude.{
  ℕ, Bool, false, not, Option, none, some, List, [], ◌∷◌, ◌++◌, length, ◌==◌, if◌then◌else◌, Bytes,
}
use anyflow.Session.Pairing.{Crypto, mac_message}
use anyflow.Files.Transfer.{TransferId}

abbrev pub stream_challenge_len : ℕ
stream_challenge_len = 32

-- b"omnibridge/files.v1/data-stream/v1"
abbrev pub data_stream_domain : Bytes
data_stream_domain =
    b'o' ∷ b'm' ∷ b'n' ∷ b'i' ∷ b'b' ∷ b'r' ∷ b'i' ∷ b'd' ∷ b'g' ∷ b'e' ∷ b'/' ∷ b'f' ∷ b'i' ∷ b'l'
    ∷ b'e' ∷ b's' ∷ b'.' ∷ b'v' ∷ b'1' ∷ b'/' ∷ b'd' ∷ b'a' ∷ b't' ∷ b'a' ∷ b'-' ∷ b's' ∷ b't'
    ∷ b'r' ∷ b'e' ∷ b'a' ∷ b'm' ∷ b'/' ∷ b'v' ∷ b'1' ∷ []

pub record StreamChallenge : Type 0 where
  pub bytes : Bytes

unfoldable pub challenge_from_bytes : Bytes → Option StreamChallenge
challenge_from_bytes bytes =
    if length bytes == stream_challenge_len then some record { bytes = bytes } else none

unfoldable pub expose_for_control_message : StreamChallenge → Bytes
expose_for_control_message challenge = challenge.bytes

module _ (c : Crypto) where
  -- The domain, and three fields with their lengths in front, as in the proof of pairing.
  pub compute_stream_mac : StreamChallenge → Bytes → Bytes → TransferId → Bytes
  compute_stream_mac challenge acceptor dialer transfer_id =
      c.hmac challenge.bytes (mac_message data_stream_domain acceptor dialer transfer_id.bytes)

  pub verify_stream_mac : Bytes → Bytes → Bool
  verify_stream_mac expected received =
      if not (length received == length expected) then false else c.ct_eq expected received
