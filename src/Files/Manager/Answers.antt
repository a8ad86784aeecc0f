-- ===== src/Files/Manager/Answers.antt =====
-- desktop/capabilities/files/src/lib.rs: the other side's answers, and `handle_control`, which takes
-- every message of a peer.
pub mod Kept
pub mod Owned
use anyflow.Prelude.{
  Bool, true, false, not, ◌&&◌, ◌||◌, Option, none, some, List, [], ◌∷◌, ◌++◌, if◌then◌else◌, Bytes,
  bytes_key, ◌=?◌, is_some, Result, ok, err,
}
use anyflow.Collections.BTreeMap
use anyflow.Files.Auth.{StreamChallenge, challenge_from_bytes, expose_for_control_message}
use anyflow.Files.Transfer.{
  TransferId, from_bytes, TransferState, transferring, completed, failed, cancelled, is_active,
  bad_metadata, WireReason, reason_from_proto,
}
use anyflow.Files.Manager.{
  Fingerprint, Session, Direction, sending, receiving, StreamRole, acceptor, dialer, Body, ready,
  TransferRecord, Manager, Env, Action, sends, dials, Did, find, change, transition, fail,
}
use anyflow.Files.Manager.Offers.{Error, random, malformed_transfer_id, empty_message, on_offer}

pub is_sending : Direction → Bool
is_sending sending = true
is_sending receiving = false

abbrev pub is_same_direction : Direction → Direction → Bool
is_same_direction sending d = is_sending d
is_same_direction receiving d = not (is_sending d)

-- `owned_active`
pub owned_active : TransferId → Fingerprint → Direction → Manager → Option Session
unfolding BTreeMap.get is_sending is_active
owned_active id peer direction m = elim (find m id) [
  | none ↦ none
  | some r ↦
      if not (r.peer =? peer)
        || not (is_same_direction direction r.direction)
        || not (is_active r.state)
      then none
      else some r.session
]

abbrev pub belongs_to : TransferId → Fingerprint → Manager → Bool
belongs_to id peer m = elim (find m id) [ none ↦ false | some r ↦ r.peer =? peer ]

abbrev pub with_challenge : StreamChallenge → TransferRecord → TransferRecord
with_challenge c r = record r { challenge = some c }

-- We accept streams, and send the challenge now.
pub accept_as_acceptor : Env → TransferId → Session → Manager → Result (Unit {0}) Error × Did
unfolding change transition expose_for_control_message
accept_as_acceptor e id session m = elim e.generates [
  | none ↦ (err random, (m, []))
  | some c ↦
      let (has_moved, (m', actions)) =
        transition e id transferring none (change id (with_challenge c) m) in
      (
        ok tt,
        (
          m',
          if has_moved
              then actions ++ sends session (ready id.bytes (expose_for_control_message c)) ∷ []
              else actions,
        ),
      )
]

-- We dial, and the answer carried the challenge.
pub accept_as_dialer : Env → TransferId → Bytes → Manager → Result (Unit {0}) Error × Did
unfolding change transition fail challenge_from_bytes
accept_as_dialer e id stream_challenge m = elim (challenge_from_bytes stream_challenge) [
  | none ↦ (ok tt, fail e id bad_metadata m)
  | some c ↦
      let (has_moved, (m', actions)) =
        transition e id transferring none (change id (with_challenge c) m) in
      (ok tt, (m', if has_moved then actions ++ dials id ∷ [] else actions))
]

pub on_accept : Env → Fingerprint → Bytes → Bytes → Manager → Result (Unit {0}) Error × Did
unfolding from_bytes owned_active accept_as_acceptor accept_as_dialer
on_accept e peer transfer_id stream_challenge m = elim (from_bytes transfer_id) [
  | none ↦ (err malformed_transfer_id, (m, []))
  | some id ↦ elim (owned_active id peer sending m) [
    | none ↦ (ok tt, (m, []))
    | some session ↦ elim m.role [
      | acceptor ↦ accept_as_acceptor e id session m
      | dialer ↦ accept_as_dialer e id stream_challenge m
    ]
  ]
]

pub ready_as_dialer : Env → TransferId → Bytes → Manager → Did
unfolding change fail challenge_from_bytes
ready_as_dialer e id stream_challenge m = elim (challenge_from_bytes stream_challenge) [
  | none ↦ fail e id bad_metadata m
  | some c ↦ (change id (with_challenge c) m, dials id ∷ [])
]

pub on_ready : Env → Fingerprint → Bytes → Bytes → Manager → Result (Unit {0}) Error × Did
unfolding from_bytes owned_active ready_as_dialer
on_ready e peer transfer_id stream_challenge m = elim (from_bytes transfer_id) [
  | none ↦ (err malformed_transfer_id, (m, []))
  | some id ↦ elim m.role [
    | acceptor ↦ (ok tt, (m, []))
    | dialer ↦ (
      ok tt,
      if is_some (owned_active id peer receiving m)
          then ready_as_dialer e id stream_challenge m
          else (m, []),
    )
  ]
]

pub on_peer_ended : Env → Fingerprint → Bytes → WireReason → TransferState → Manager → Did
unfolding from_bytes transition reason_from_proto BTreeMap.get
on_peer_ended e peer raw_id reason next m = elim (from_bytes raw_id) [
  | none ↦ (m, [])
  | some id ↦
      if not (belongs_to id peer m)
      then (m, [])
      else (transition e id next (some (reason_from_proto reason)) m).1
]

pub on_complete : Env → Fingerprint → Bytes → Manager → Did
unfolding from_bytes owned_active transition
on_complete e peer raw_id m = elim (from_bytes raw_id) [
  | none ↦ (m, [])
  | some id ↦
      if is_some (owned_active id peer sending m)
      then (transition e id completed none m).1
      else (m, [])
]

-- `handle_control`, of the body that prost decodes.
pub handle_control :
    Env → Fingerprint → Bytes → Session → Option Body → Manager → Result (Unit {0}) Error × Did
unfolding on_accept on_ready on_peer_ended on_complete
handle_control e peer device_id session none m = (err empty_message, (m, []))
handle_control e peer device_id session (some (Body.offer o)) m =
    on_offer e peer device_id session o m
handle_control e peer device_id session (some (Body.accept id c)) m = on_accept e peer id c m
handle_control e peer device_id session (some (Body.ready id c)) m = on_ready e peer id c m
handle_control e peer device_id session (some (Body.reject id reason)) m =
    (ok tt, on_peer_ended e peer id reason cancelled m)
handle_control e peer device_id session (some (Body.cancel id reason)) m =
    (ok tt, on_peer_ended e peer id reason cancelled m)
handle_control e peer device_id session (some (Body.failed_with id reason)) m =
    (ok tt, on_peer_ended e peer id reason failed m)
handle_control e peer device_id session (some (Body.complete id)) m =
    (ok tt, on_complete e peer id m)
