-- ===== src/Session/Connect.antt =====
-- desktop/core/src/session.rs, the initiator's half of the handshake. What happens outside the
-- function comes in as `Replies`.
pub mod Authenticated
pub mod Mutual
pub mod Examples
use anyflow.Prelude.{
  ℕ, Bool, true, false, not, ◌&&◌, Option, none, some, List, [], ◌∷◌, length, leb, ◌==◌,
  if◌then◌else◌, Bytes, bytes_key, ◌=?◌, Result, ok, err,
}
use anyflow.Session.Wire.{
  DeviceInfo, Hello, HelloStatus, HelloAck, PairStatus, PairResponse, Body, Envelope,
}
use anyflow.Session.Capability.{CapabilityRegistry, advertised, negotiate}
use anyflow.Session.Pairing.{
  Crypto, PairingError, not_in_pairing_mode, rate_limited, declined_by_user, bad_proof,
  compute_proof, compute_confirmation, verify_proof,
}
use anyflow.Session.Replay.{ReplayGuard}
use anyflow.Session.Replay
use anyflow.Session.Handshake.{
  Violation, Error, Established, Read, HostCall, stored, Outcome, fails, returns, after_sending,
  after_calling, try, read, admit, from_hex, protocol_version_min, protocol_version_max,
  version_unsupported, not_authorized, protocol, pairing, certificate,
}

abbrev pub nonce_len : ℕ
nonce_len = 32

pub data ClientHandshake : Type 0 where
  established : Established → ClientHandshake
  pairing_required : ClientHandshake

pub record Replies : Type 0 where
  pub local_device_info : DeviceInfo
  pub registry : CapabilityRegistry
  pub hello_written : Result (Unit {0}) Error
  pub first_read : Read
  pub request_written : Result (Unit {0}) Error
  pub second_read : Read
  pub store_peer : Result (Unit {0}) Error

-- `(PROTOCOL_VERSION_MIN..=PROTOCOL_VERSION_MAX).contains(&version)`
abbrev pub is_spoken : ℕ → Bool
is_spoken version = leb protocol_version_min version && leb version protocol_version_max

abbrev pub error_of : PairStatus → PairingError
error_of PairStatus.declined_by_user = declined_by_user
error_of PairStatus.not_in_pairing_mode = not_in_pairing_mode
error_of PairStatus.rate_limited = rate_limited
error_of _ = bad_proof

abbrev pub is_accepted : PairStatus → Bool
is_accepted PairStatus.accepted = true
is_accepted _ = false

abbrev pub session_with : Replies → Bytes → DeviceInfo → HelloAck → Established
session_with r server remote ack = record {
  peer = server;
  device = remote;
  negotiated_capabilities = negotiate r.registry ack.capabilities;
  protocol_version = ack.negotiated_protocol_version;
}

module _ (c : Crypto) (r : Replies) where
  pub on_response :
      Bytes → Bytes → DeviceInfo → HelloAck → Bytes → Option Body → Outcome ClientHandshake
  on_response server local_fp remote ack token (some (Body.pair_response resp)) =
      if not (is_accepted resp.status)
      then fails (pairing (error_of resp.status))
      else if not (
          verify_proof c (compute_confirmation c token server local_fp ack.pairing_nonce)
            resp.confirmation)
      then fails (pairing bad_proof)
      else after_calling
          (stored remote server (negotiate r.registry ack.capabilities)
            ack.negotiated_protocol_version)
          (try r.store_peer λ _. returns (established (session_with r server remote ack)))
  on_response server local_fp remote ack token _ = fails (protocol Violation.expected_pair_response)

  pub prove :
      ReplayGuard → Bytes → Bytes → DeviceInfo → HelloAck → Option Bytes → Outcome ClientHandshake
  unfolding on_response
  prove guard server local_fp remote ack none = returns pairing_required
  prove guard server local_fp remote ack (some token) =
      if not (length ack.pairing_nonce == nonce_len)
      then fails (pairing not_in_pairing_mode)
      else if not (is_spoken ack.negotiated_protocol_version)
      then fails version_unsupported
      else after_sending
          (Body.pair_request
            record { proof = compute_proof c token server local_fp ack.pairing_nonce })
          (try r.request_written λ _.
            read r.second_read Violation.timed_out_waiting_for_pair_response
              λ env. admit guard env λ _. on_response server local_fp remote ack token env.body)

  pub on_status :
      ReplayGuard
      → Bytes
      → Bytes
      → DeviceInfo
      → HelloAck
      → Option Bytes
      → HelloStatus
      → Outcome ClientHandshake
  unfolding prove
  on_status guard server local_fp remote ack token HelloStatus.version_unsupported =
      fails version_unsupported
  on_status guard server local_fp remote ack token HelloStatus.rejected = fails not_authorized
  on_status guard server local_fp remote ack token HelloStatus.trusted =
      if not (is_spoken ack.negotiated_protocol_version)
      then fails version_unsupported
      else returns (established (session_with r server remote ack))
  on_status guard server local_fp remote ack token HelloStatus.pairing_required =
      prove guard server local_fp remote ack token
  on_status guard server local_fp remote ack token HelloStatus.unspecified =
      fails (protocol Violation.hello_ack_unspecified)

  pub on_claim :
      ReplayGuard
      → Bytes
      → Bytes
      → DeviceInfo
      → HelloAck
      → Option Bytes
      → Option Bytes
      → Outcome ClientHandshake
  unfolding on_status
  on_claim guard server local_fp remote ack token none =
      fails (protocol Violation.hello_ack_fingerprint_malformed)
  on_claim guard server local_fp remote ack token (some claimed) =
      if not (claimed =? server)
      then fails (protocol Violation.hello_ack_fingerprint_mismatch)
      else on_status guard server local_fp remote ack token ack.status

  module _ (hex_decode : Bytes → Option Bytes) where
    pub on_remote :
        ReplayGuard
        → Bytes
        → Bytes
        → HelloAck
        → Option Bytes
        → Option DeviceInfo
        → Outcome ClientHandshake
    unfolding on_claim
    on_remote guard server local_fp ack token none =
        fails (protocol Violation.hello_ack_without_device_info)
    on_remote guard server local_fp ack token (some remote) =
        on_claim guard server local_fp remote ack token
          (from_hex hex_decode remote.identity_fingerprint)

    pub on_ack : ReplayGuard → Bytes → Bytes → Option Bytes → Option Body → Outcome ClientHandshake
    unfolding on_remote
    on_ack guard server local_fp token (some (Body.hello_ack ack)) =
        on_remote guard server local_fp ack token ack.device
    on_ack guard server local_fp token _ = fails (protocol Violation.expected_hello_ack)

    pub greet : Bytes → Option Bytes → Option Bytes → Outcome ClientHandshake
    unfolding on_ack
    greet server token none = fails certificate
    greet server token (some local_fp) =
        after_sending
          (Body.hello record {
            device = some r.local_device_info;
            min_protocol_version = protocol_version_min;
            max_protocol_version = protocol_version_max;
            capabilities = advertised r.registry;
          })
          (try r.hello_written λ _.
            read r.first_read Violation.timed_out_waiting_for_hello_ack
              λ env. admit Replay.new env λ guard. on_ack guard server local_fp token env.body)

    pub connect_handshake : Bytes → Option Bytes → Outcome ClientHandshake
    unfolding greet
    connect_handshake server token =
        greet server token (from_hex hex_decode r.local_device_info.identity_fingerprint)
