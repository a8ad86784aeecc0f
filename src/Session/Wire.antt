-- ===== src/Session/Wire.antt =====
-- protocol/proto/omnibridge/v1/envelope.proto and core.proto: an envelope, and the messages of the
-- handshake. A text is its UTF-8 bytes.
use anyflow.Prelude.{ℕ, Bool, Option, List, Bytes}

pub record DeviceInfo : Type 0 where
  pub device_id : Bytes
  pub device_name : Bytes
  pub platform : ℕ
  pub identity_fingerprint : Bytes

pub record Hello : Type 0 where
  pub device : Option DeviceInfo
  pub min_protocol_version : ℕ  -- uint32
  pub max_protocol_version : ℕ  -- uint32
  pub capabilities : List Bytes

pub data HelloStatus : Type 0 where
  unspecified trusted pairing_required version_unsupported rejected : HelloStatus

pub record HelloAck : Type 0 where
  pub device : Option DeviceInfo
  pub status : HelloStatus
  pub negotiated_protocol_version : ℕ
  pub capabilities : List Bytes
  pub pairing_nonce : Bytes

pub record PairRequest : Type 0 where
  pub proof : Bytes

pub data PairStatus : Type 0 where
  unspecified accepted rejected declined_by_user not_in_pairing_mode rate_limited : PairStatus

pub record PairResponse : Type 0 where
  pub status : PairStatus
  pub confirmation : Bytes

-- `Error`
pub record ErrorMessage : Type 0 where
  pub code : ℕ
  pub message : Bytes
  pub fatal : Bool

pub data Body : Type 0 where
  hello : Hello → Body
  hello_ack : HelloAck → Body
  pair_request : PairRequest → Body
  pair_response : PairResponse → Body
  capability_announce : List Bytes → Body
  ping : Bytes → Body
  pong : Bytes → Body
  error : ErrorMessage → Body
  capability_message : Bytes → Bytes → Body

pub record Envelope : Type 0 where
  pub protocol_version : ℕ  -- uint32
  pub message_id : Bytes
  pub sequence : ℕ  -- uint64
  pub timestamp_unix_ms : ℕ  -- int64
  pub correlation_id : Bytes
  pub body : Option Body
