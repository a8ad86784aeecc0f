-- ===== src/Session/Connect/Examples.antt =====
-- An initiator that is trusted, and one that pairs. Hexadecimal stands for itself here, and a small
-- checksum for HMAC.
use anyflow.Prelude.{
  ℕ, ◌+◌, ◌≡◌, refl, Option, none, some, [], ◌∷◌, replicate, Bytes, cmp_bytes, ok, =?_iff, ◌=?◌,
  bytes_key,
}
use anyflow.Session.Wire.{DeviceInfo, HelloStatus, HelloAck, PairStatus, Body, Envelope}
use anyflow.Session.Pairing
use anyflow.Session.Pairing.{Crypto, PairingSession, compute_confirmation}
use anyflow.Session.Replay
use anyflow.Session.Handshake.{from_hex}
use anyflow.Session.Connect.{
  CapabilityRegistry, Replies, session_with, established, connect_handshake,
}
use anyflow.Session.Connect.Authenticated.{IsKnown, connect_handshake_lem}
use anyflow.Session.Connect.Mutual.{answered, carrying, challenge, pairing_completes}

abbrev hex : Bytes → Option Bytes
hex s = some s

abbrev sum : Bytes → ℕ
sum [] = 0
sum (x ∷ xs) = x + sum xs

abbrev checksum : Crypto
checksum = record {
  hmac = λ key message. (sum key + sum message) ∷ replicate 31 0;
  ct_eq = λ a b. a =? b;
  ct_eq_iff = λ a b n. =?_iff a b;
}

abbrev device : ℕ → DeviceInfo
device n = record {
  device_id = n ∷ [];
  device_name = [];
  platform = 1;
  identity_fingerprint = replicate 32 n;
}

abbrev envelope : ℕ → Envelope
envelope n = record {
  protocol_version = 1;
  message_id = replicate 16 n;
  sequence = n;
  timestamp_unix_ms = 0;
  correlation_id = [];
  body = none;
}

-- A desktop that offers the clipboard.
abbrev other_registry : CapabilityRegistry
other_registry = record { inner = (b'c' ∷ [], tt) ∷ [] }

abbrev silent : Replies
silent = record {
  local_device_info = device 7;
  registry = record { inner = [] };
  hello_written = ok tt;
  first_read = none;
  request_written = ok tt;
  second_read = none;
  store_peer = ok tt;
}

abbrev welcome : HelloAck
welcome = record {
  device = some (device 5);
  status = HelloStatus.trusted;
  negotiated_protocol_version = 1;
  capabilities = [];
  pairing_nonce = [];
}

abbrev trusted_replies : Replies
trusted_replies = answered silent (carrying (envelope 1) (Body.hello_ack welcome)) (envelope 2)

connect_handshake_lem_example :
    IsKnown checksum trusted_replies
      (replicate 32 5)
      (replicate 32 7)
      none
      hex
      (connect_handshake checksum trusted_replies hex (replicate 32 5) none).calls
      (session_with trusted_replies (replicate 32 5) (device 5) welcome)
unfolding from_hex connect_handshake Replay.admit Replay.new cmp_bytes
connect_handshake_lem_example =
    connect_handshake_lem checksum trusted_replies hex (replicate 32 5) none (replicate 32 7)
      (session_with trusted_replies (replicate 32 5) (device 5) welcome) refl refl

abbrev window : PairingSession
window = Pairing.new (7 ∷ 7 ∷ []) 1000 120

abbrev nonce : Bytes
nonce = replicate 32 9

abbrev first : Envelope
first = carrying (envelope 1) (Body.hello_ack (challenge (device 5) 1 other_registry nonce))

abbrev second : Envelope
second = carrying (envelope 2) (
    Body.pair_response record {
      status = PairStatus.accepted;
      confirmation =
          compute_confirmation checksum window.token (replicate 32 5) (replicate 32 7) nonce;
    })

pairing_completes_example :
    (connect_handshake checksum
      (answered silent first second)
      hex
      (replicate 32 5)
      (some window.token)).result
    ≡ ok (
        established (
          session_with silent
            (replicate 32 5)
            (device 5)
            (challenge (device 5) 1 other_registry nonce)))
unfolding from_hex Replay.admit Replay.new cmp_bytes Pairing.is_exhausted Pairing.new
pairing_completes_example =
    (pairing_completes checksum hex window 1001 silent (replicate 32 5) (replicate 32 7) nonce
      (device 5) 1 other_registry (envelope 1) (envelope 2) (Replay.admit Replay.new first).0
      (Replay.admit (Replay.admit Replay.new first).0 second).0 refl refl refl refl refl refl
      refl).2
