-- ===== src/Session/Handshake.antt =====
-- desktop/core/src/session.rs, the responder's half of the handshake. What happens outside the
-- function comes in as `Answers`: what the peer sends, whether a write succeeds, and what the host
-- says each time it is asked, which other tasks may change in between.
pub mod Version
pub mod Outcomes
pub mod Authorized
pub mod Replies
pub mod Challenge
pub mod Examples
use anyflow.Prelude.{
  ℕ, ◌+◌, Bool, true, false, not, ◌&&◌, Option, none, some, List, [], ◌∷◌, ◌++◌, keep, any, length,
  leb, ◌==◌, if◌then◌else◌, Bytes, bytes_key, ◌=?◌, Result, ok, err,
}
use anyflow.Session.Wire.{
  DeviceInfo, Hello, HelloStatus, HelloAck, PairRequest, PairStatus, PairResponse, Body, Envelope,
}
use anyflow.Session.Capability.{CapabilityRegistry, advertised, negotiate}
use anyflow.Session.Pairing.{PairingError, not_in_pairing_mode, rate_limited, declined_by_user}
use anyflow.Session.Replay.{ReplayGuard}
use anyflow.Session.Replay

abbrev pub protocol_version_min : ℕ
protocol_version_min = 1

abbrev pub protocol_version_max : ℕ
protocol_version_max = 1

abbrev min : ℕ → ℕ → ℕ
min a b = if leb a b then a else b

abbrev max : ℕ → ℕ → ℕ
max a b = if leb a b then b else a

pub negotiate_version : ℕ → ℕ → Option ℕ
negotiate_version peer_min peer_max =
    let chosen = min peer_max protocol_version_max in
    let floor = max peer_min protocol_version_min in if leb floor chosen then some chosen else none

-- The messages of `Error::Protocol` that are met here.
pub data Violation : Type 0 where
  timed_out_waiting_for_hello : Violation
  timed_out_waiting_for_pair_request : Violation
  expected_hello : Violation
  hello_without_device_info : Violation
  hello_fingerprint_malformed : Violation
  hello_fingerprint_mismatch : Violation
  version_changed : Violation
  expected_pair_request : Violation
  timed_out_waiting_for_hello_ack : Violation
  timed_out_waiting_for_pair_response : Violation
  expected_hello_ack : Violation
  hello_ack_without_device_info : Violation
  hello_ack_fingerprint_malformed : Violation
  hello_ack_fingerprint_mismatch : Violation
  hello_ack_unspecified : Violation
  expected_pair_response : Violation
  ping_too_large : Violation
  unexpected_message : Violation
  peer_stopped_responding : Violation
  replay : Replay.Error → Violation

pub data Error : Type 0 where
  io decode closed : Error
  protocol : Violation → Error
  frame_too_large : ℕ → ℕ → Error
  version_unsupported not_authorized : Error
  pairing : PairingError → Error
  store certificate : Error
  peer_error : ℕ → Error

pub data PeerStatus : Type 0 where
  trusted : Bytes → Bytes → List Bytes → PeerStatus
  unknown revoked : PeerStatus

pub record Established : Type 0 where
  pub peer : Bytes
  pub device : DeviceInfo
  pub negotiated_capabilities : List Bytes
  pub protocol_version : ℕ

pub record EnvelopeFactory : Type 0 where
  pub protocol_version : ℕ
  pub sequence : ℕ

-- A read ends with an envelope, with an error, or not before the timeout.
abbrev pub Read : Type 0
Read = Option (Result Envelope Error)

pub record Answers : Type 0 where
  pub first_read : Read
  pub second_read : Read
  pub ack_written : Result (Unit {0}) Error
  pub response_written : Result (Unit {0}) Error
  pub registry : CapabilityRegistry
  pub local_device_info : DeviceInfo
  pub status : PeerStatus
  -- `pairing_mode_active`, asked for a revoked device, and asked again before the challenge
  pub window_open : Bool
  pub active : Bool
  pub nonce : Result Bytes Error
  pub verify_pairing_proof : Bytes → Bytes → Bytes → Result Bytes PairingError
  -- a timeout counts as no
  pub confirm_pairing : Bool
  pub store_peer : Result (Unit {0}) Error
  pub status_after : PeerStatus

-- The calls of the host that ask for more than information.
pub data HostCall : Type 0 where
  verified : Bytes → Bytes → Bytes → HostCall
  asked_user : DeviceInfo → Bytes → HostCall
  stored : DeviceInfo → Bytes → List Bytes → ℕ → HostCall

-- What has been sent and called, and how it ended.
pub record Outcome (A : Type 0) : Type 0 where
  pub sent : List Body
  pub calls : List HostCall
  pub result : Result A Error

abbrev pub fails : {A : Type 0} → Error → Outcome A
fails e = record { sent = []; calls = []; result = err e }

abbrev pub returns : {A : Type 0} → A → Outcome A
returns a = record { sent = []; calls = []; result = ok a }

abbrev pub after_sending : {A : Type 0} → Body → Outcome A → Outcome A
after_sending b o = record o { sent = b ∷ o.sent }

abbrev pub after_calling : {A : Type 0} → HostCall → Outcome A → Outcome A
after_calling c o = record o { calls = c ∷ o.calls }

-- `?` on something that was read, written or asked
abbrev pub try : {A B : Type 0} → Result A Error → (A → Outcome B) → Outcome B
try (ok a) next = next a
try (err e) next = fails e

abbrev pub read : {A : Type 0} → Read → Violation → (Envelope → Outcome A) → Outcome A
read none timeout next = fails (protocol timeout)
read (some r) timeout next = try r next

abbrev pub admit : {A : Type 0} → ReplayGuard → Envelope → (ReplayGuard → Outcome A) → Outcome A
admit g e next = elim (Replay.admit g e).1 [
  | ok u ↦ next (Replay.admit g e).0
  | err v ↦ fails (protocol (replay v))
]

abbrev pub hello_ack : Answers → HelloStatus → ℕ → List Bytes → Bytes → Body
hello_ack a status version capabilities pairing_nonce = Body.hello_ack record {
  device = some a.local_device_info;
  status = status;
  negotiated_protocol_version = version;
  capabilities = capabilities;
  pairing_nonce = pairing_nonce;
}

abbrev pub pair_response : PairStatus → Bytes → Body
pair_response status confirmation =
    Body.pair_response record { status = status; confirmation = confirmation }

abbrev pub status_of : PairingError → PairStatus
status_of not_in_pairing_mode = PairStatus.not_in_pairing_mode
status_of rate_limited = PairStatus.rate_limited
status_of _ = PairStatus.rejected

abbrev pub granted_of : PeerStatus → List Bytes
granted_of (trusted device_id device_name granted) = granted
granted_of _ = []

-- `filter(|c| granted.iter().any(|g| g == c))`
abbrev pub effective : List Bytes → List Bytes → List Bytes
effective granted common = keep (λ c. any (λ g. g =? c) granted) common

pub finish_pairing : Answers → Bytes → DeviceInfo → ℕ → List Bytes → Bytes → Outcome Established
finish_pairing a peer device version peer_capabilities confirmation =
    let common = negotiate a.registry peer_capabilities in
    after_calling (stored device peer common version) (
      try a.store_peer λ _. after_sending (pair_response PairStatus.accepted confirmation) (
        try a.response_written λ _. returns record {
          peer = peer;
          device = device;
          negotiated_capabilities = effective (granted_of a.status_after) common;
          protocol_version = version;
        }))

pub on_verdict :
    Answers → Bytes → DeviceInfo → ℕ → List Bytes → Result Bytes PairingError → Outcome Established
unfolding finish_pairing
on_verdict a peer device version peer_capabilities (err e) =
    after_sending (pair_response (status_of e) []) (fails (pairing e))
on_verdict a peer device version peer_capabilities (ok confirmation) =
    after_calling (asked_user device peer) (
      if not a.confirm_pairing
      then after_sending (pair_response PairStatus.declined_by_user [])
          (fails (pairing declined_by_user))
      else finish_pairing a peer device version peer_capabilities confirmation)

pub on_pair_request :
    Answers → Bytes → DeviceInfo → Bytes → ℕ → List Bytes → Option Body → Outcome Established
unfolding on_verdict
on_pair_request a peer device nonce version peer_capabilities (some (Body.pair_request request)) =
    after_calling (verified peer nonce request.proof) (
      on_verdict a peer device version peer_capabilities
        (a.verify_pairing_proof peer nonce request.proof))
on_pair_request a peer device nonce version peer_capabilities _ =
    fails (protocol expected_pair_request)

pub accept_pairing :
    Answers → ReplayGuard → Bytes → DeviceInfo → Bytes → ℕ → List Bytes → Outcome Established
unfolding on_pair_request
accept_pairing a guard peer device nonce version peer_capabilities =
    read a.second_read timed_out_waiting_for_pair_request λ env. admit guard env λ guard'.
      if not (env.protocol_version == version)
      then fails (protocol version_changed)
      else on_pair_request a peer device nonce version peer_capabilities env.body

pub accept_trusted :
    Answers → Bytes → DeviceInfo → ℕ → List Bytes → Bytes → Bytes → List Bytes → Outcome Established
accept_trusted a peer device version peer_capabilities device_id device_name granted =
    after_sending (hello_ack a HelloStatus.trusted version (advertised a.registry) []) (
      try a.ack_written λ _. returns record {
        peer = peer;
        device = record device { device_id = device_id; device_name = device_name };
        negotiated_capabilities = effective granted (negotiate a.registry peer_capabilities);
        protocol_version = version;
      })

pub accept_unknown :
    Answers → ReplayGuard → Bytes → DeviceInfo → ℕ → List Bytes → Outcome Established
unfolding accept_pairing
accept_unknown a guard peer device version peer_capabilities =
    try (if a.active then a.nonce else ok []) λ nonce.
      after_sending (hello_ack a HelloStatus.pairing_required version (advertised a.registry) nonce)
        (try a.ack_written λ _.
          if not a.active
          then fails (pairing not_in_pairing_mode)
          else accept_pairing a guard peer device nonce version peer_capabilities)

pub by_status :
    Answers → ReplayGuard → Bytes → DeviceInfo → ℕ → List Bytes → PeerStatus → Outcome Established
unfolding accept_trusted accept_unknown
by_status a guard peer device version peer_capabilities (trusted device_id device_name granted) =
    accept_trusted a peer device version peer_capabilities device_id device_name granted
by_status a guard peer device version peer_capabilities unknown =
    accept_unknown a guard peer device version peer_capabilities
by_status a guard peer device version peer_capabilities revoked =
    if a.window_open
    then accept_unknown a guard peer device version peer_capabilities
    else after_sending (hello_ack a HelloStatus.rejected version [] []) (fails not_authorized)

pub on_version :
    Answers → ReplayGuard → Bytes → DeviceInfo → List Bytes → Option ℕ → Outcome Established
unfolding by_status
on_version a guard peer device peer_capabilities none =
    after_sending (hello_ack a HelloStatus.version_unsupported 0 [] []) (fails version_unsupported)
on_version a guard peer device peer_capabilities (some version) =
    by_status a guard peer device version peer_capabilities a.status

pub on_claim :
    Answers → ReplayGuard → Bytes → Hello → DeviceInfo → Option Bytes → Outcome Established
unfolding on_version negotiate_version
on_claim a guard peer hello device none = fails (protocol hello_fingerprint_malformed)
on_claim a guard peer hello device (some claimed) =
    if not (claimed =? peer)
    then fails (protocol hello_fingerprint_mismatch)
    else on_version a guard peer device hello.capabilities
        (negotiate_version hello.min_protocol_version hello.max_protocol_version)

-- `HEXLOWER.decode` is the `data_encoding` crate's.
module _ (hex_decode : Bytes → Option Bytes) where
  unfoldable pub from_hex : Bytes → Option Bytes
  from_hex s = elim (hex_decode s) [
    | some raw ↦ if length raw == 32 then some raw else none
    | none ↦ none
  ]

  pub on_device : Answers → ReplayGuard → Bytes → Hello → Option DeviceInfo → Outcome Established
  unfolding on_claim from_hex
  on_device a guard peer hello none = fails (protocol hello_without_device_info)
  on_device a guard peer hello (some device) =
      on_claim a guard peer hello device (from_hex device.identity_fingerprint)

  pub on_hello : Answers → ReplayGuard → Bytes → Option Body → Outcome Established
  unfolding on_device
  on_hello a guard peer (some (Body.hello hello)) = on_device a guard peer hello hello.device
  on_hello a guard peer _ = fails (protocol expected_hello)

  pub accept_handshake : Answers → Bytes → Outcome Established
  unfolding on_hello
  accept_handshake a peer =
      read a.first_read timed_out_waiting_for_hello
        λ env. admit Replay.new env λ guard. on_hello a guard peer env.body
