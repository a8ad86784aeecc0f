-- ===== src/Files/Manager/Streams.antt =====
-- desktop/capabilities/files/src/lib.rs: the data stream of a transfer, on either end, up to its
-- copy and from the copy on.
pub mod Kept
pub mod Admitted
pub mod Verified
use anyflow.Prelude.{
  ℕ, ◌+◌, Bool, true, false, not, Option, none, some, List, [], ◌∷◌, ◌++◌, leb, ◌==◌, if◌then◌else◌,
  Bytes, bytes_key, ◌=?◌, is_some, Result, ok, err,
}
use anyflow.Collections.BTreeMap
use anyflow.Session.Pairing.{Crypto}
use anyflow.Files.Filename.{Text}
use anyflow.Files.Auth.{StreamChallenge, compute_stream_mac, verify_stream_mac}
use anyflow.Files.Transfer.{
  TransferId, from_bytes, TransferState, transferring, verifying, completed, is_terminal,
  FailureReason, integrity, storage, transport, unknown_transfer, WireReason, reason_from_proto,
}
use anyflow.Files.Manager.{
  Fingerprint, Session, Direction, sending, receiving, verdict_timeout, complete, TransferRecord,
  Manager, Env, Action, sends, removes, promotes, Did, authorized, find, change, transition, fail,
}

-- `pb::DataStreamAuth`
pub record DataStreamAuth : Type 0 where
  pub protocol_version : ℕ
  pub transfer_id : Bytes
  pub mac : Bytes

pub data StreamError : Type 0 where
  no_frame version_mismatch malformed_transfer_id not_authorized : StreamError

pub is_transferring : TransferState → Bool
is_transferring transferring = true
is_transferring _ = false

abbrev pub taken : TransferRecord → TransferRecord
taken r = record r { challenge = none; stream_active = true }

abbrev pub without_challenge : TransferRecord → TransferRecord
without_challenge r = record r { challenge = none }

abbrev pub with_stream : TransferRecord → TransferRecord
with_stream r = record r { stream_active = true }

abbrev pub without_stream : TransferRecord → TransferRecord
without_stream r = record r { stream_active = false }

module _ (c : Crypto) where
  -- The checks on the record of the transfer that a stream names.
  pub check_record :
      Fingerprint → TransferId → Fingerprint → Bytes → Option TransferRecord → Option FailureReason
  unfolding is_transferring
  check_record local_fingerprint id peer mac none = some unknown_transfer
  check_record local_fingerprint id peer mac (some r) =
      if not (r.peer =? peer)
      then some unknown_transfer
      else if not (is_transferring r.state)
      then some unknown_transfer
      else elim r.challenge [
        | none ↦ some unknown_transfer
        | some challenge ↦
            if verify_stream_mac c (compute_stream_mac c challenge local_fingerprint peer id) mac
            then none
            else some FailureReason.not_authorized
      ]

  -- `check_stream`: no reason is a yes, and uses the challenge up.
  pub check_stream :
      Env → TransferId → Fingerprint → Bytes → Manager → Option FailureReason × Manager
  unfolding authorized check_record change BTreeMap.get
  check_stream e id peer mac m =
      if not (authorized e peer)
      then (some FailureReason.not_authorized, m)
      else elim (check_record m.local_fingerprint id peer mac (find m id)) [
        | some reason ↦ (some reason, m)
        | none ↦ (none, change id taken m)
      ]

  abbrev refuses : Manager → StreamError → Result TransferId StreamError × Manager
  refuses m why = (err why, m)

  -- `accept_data_stream` up to `run_stream`, of the frame where one came in time.
  pub accept_data_stream :
      Env
      → Fingerprint
      → Option DataStreamAuth
      → ℕ
      → Manager
      → Result TransferId StreamError × Manager
  unfolding check_stream from_bytes
  accept_data_stream e peer none protocol_version m = refuses m no_frame
  accept_data_stream e peer (some frame) protocol_version m =
      if not (frame.protocol_version == protocol_version)
      then refuses m version_mismatch
      else elim (from_bytes frame.transfer_id) [
        | none ↦ refuses m malformed_transfer_id
        | some id ↦
            let (reason, m') = check_stream e id peer frame.mac m in
            elim reason [ some why ↦ refuses m' not_authorized | none ↦ (ok id, m') ]
      ]

  -- The first section of `dial_and_run`: the peer, and the MAC that proves the challenge.
  pub take_challenge : TransferId → Manager → Option (Fingerprint × Bytes) × Manager
  unfolding is_transferring change BTreeMap.get
  take_challenge id m = elim (find m id) [
    | none ↦ (none, m)
    | some r ↦ if not (is_transferring r.state) then (none, m) else elim r.challenge [
      | none ↦ (none, m)
      | some challenge ↦ (
        some (r.peer, compute_stream_mac c challenge r.peer m.local_fingerprint id),
        change id without_challenge m,
      )
    ]
  ]

-- How a dialled stream answers: it cannot be opened or is lost, it refuses, or it is ready.
pub data Dialled : Type 0 where
  lost : Dialled
  refused : WireReason → Dialled
  ready : Dialled

-- The rest of `dial_and_run`, up to `run_stream`.
pub on_dialled : Env → TransferId → Dialled → Manager → Did
unfolding fail change reason_from_proto
on_dialled e id lost m = fail e id transport m
on_dialled e id (refused reason) m = fail e id (reason_from_proto reason) m
on_dialled e id Dialled.ready m = (change id with_stream m, [])

-- What `run_stream` reads of the record before it copies.
pub record StreamPlan : Type 0 where
  pub direction : Direction
  pub size_bytes : ℕ
  pub sha256 : Bytes
  pub source : Option Bytes
  pub temp : Option Bytes
  pub filename : Text
  pub session : Session

unfoldable pub run_stream : TransferId → Manager → Option StreamPlan
unfolding BTreeMap.get
run_stream id m = elim (find m id) [
  | none ↦ none
  | some r ↦ some record {
    direction = r.direction;
    size_bytes = r.size_bytes;
    sha256 = r.sha256;
    source = r.source;
    temp = r.temp;
    filename = r.filename;
    session = r.session;
  }
]

-- The file that the copy reads or writes, where the plan has one and it opens.
pub open_file : Env → TransferId → Bool → Option Bytes → Manager → Option Bytes × Did
unfolding fail
open_file e id opens none m = (none, fail e id storage m)
open_file e id opens (some path) m =
    if opens then (some path, (m, [])) else (none, fail e id storage m)

abbrev pub awaiting_verdict : Env → TransferRecord → TransferRecord
awaiting_verdict e r = record r { stream_active = false; deadline = e.now + verdict_timeout }

pub is_transport : FailureReason → Bool
is_transport transport = true
is_transport _ = false

-- `run_send` from the end of the copy on. After an error of the transport the peer's own verdict is
-- awaited.
pub run_send : Env → TransferId → Result (Unit {0}) FailureReason → Manager → Did
unfolding change fail
run_send e id (ok x) m = (change id (awaiting_verdict e) m, [])
run_send e id (err reason) m =
    let m' = change id (awaiting_verdict e) m in
    if is_transport reason then (m', []) else fail e id reason m'

-- One round of `peer_verdict_arrives`: what it returns, where it does not wait for longer.
pub poll_verdict : Env → TransferId → ℕ → Manager → Option Bool
unfolding BTreeMap.get is_terminal
poll_verdict e id deadline m = elim (find m id) [
  | none ↦ some true
  | some r ↦
      if is_terminal r.state then some true else if leb deadline e.now then some false else none
]

pub on_no_verdict : Env → TransferId → ℕ → Manager → Did
unfolding poll_verdict fail
on_no_verdict e id deadline m = elim (poll_verdict e id deadline m) [
  | some false ↦ fail e id transport m
  | verdict ↦ (m, [])
]

abbrev pub stored : Text → TransferRecord → TransferRecord
stored path r = record r { temp = none; stored_at = some path }

-- From the promotion on, of what it gives.
unfoldable pub on_promoted : Env → TransferId → StreamPlan → Bytes → Option Text → Manager → Did
unfolding fail change transition
on_promoted e id plan temp none m =
    ((fail e id storage m).0, promotes temp plan.filename ∷ (fail e id storage m).1)
on_promoted e id plan temp (some path) m =
    let (has_moved, (m', actions)) = transition e id completed none (change id (stored path) m) in
    let told = if has_moved then sends plan.session (complete id.bytes) ∷ [] else [] in
    (m', promotes temp plan.filename ∷ actions ++ told)

-- `run_receive` from the end of the copy on, of what the copy gives, whether the file is flushed,
-- and what promoting it gives.
unfoldable pub run_receive :
    Env
    → TransferId
    → StreamPlan
    → Bytes
    → Result Bytes FailureReason
    → Bool
    → Option Text
    → Manager
    → Did
unfolding fail change transition on_promoted
run_receive e id plan temp (err reason) syncs promoted m =
    fail e id reason (change id without_stream m)
run_receive e id plan temp (ok digest) syncs promoted m =
    let m' = change id without_stream m in
    let (has_moved, (m'', actions)) = transition e id verifying none m' in
    if not syncs
    then fail e id storage m'
    else if not has_moved
    then (m'', actions)
    else if not (digest =? plan.sha256)
    then fail e id integrity m''
    else on_promoted e id plan temp promoted m''
