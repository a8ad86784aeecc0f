-- ===== src/Files/Manager/Offers.antt =====
-- desktop/capabilities/files/src/lib.rs: offering a local file, an incoming offer, and what follows
-- the answer to it.
pub mod Kept
use anyflow.Prelude.{
  ℕ, ◌+◌, ◌*◌, Bool, true, false, not, Option, none, some, List, [], ◌∷◌, ◌++◌, length, leb, ltb,
  ◌==◌, if◌then◌else◌, Bytes, bytes_key, is_some, is_nil, Result, ok, err, forget,
}
use anyflow.Collections.BTreeMap
use anyflow.Files.Filename.{Text, sanitize, byte_len, max_filename_bytes}
use anyflow.Files.Auth.{StreamChallenge, expose_for_control_message}
use anyflow.Files.Transfer.{
  TransferId, from_bytes, offered, waiting_accept, transferring, failed, FailureReason,
  declined_by_user, too_many_transfers, too_large, bad_metadata, storage, transport, revoked,
  reason_to_proto,
}
use anyflow.Files.Manager.{
  Fingerprint, Session, sending, receiving, StreamRole, acceptor, dialer, FileOffer, offer, accept,
  reject, IncomingOffer, deadline_for, max_concurrent_transfers_per_peer, max_mime_type_bytes,
  TransferRecord, Manager, Env, Action, sends, asks, removes, dials, Did, session_for, authorized,
  find, change, clean_up_temp, transition, fail, active_count_for,
}

pub data Error : Type 0 where
  not_authorized not_connected too_many unsafe_name io random closed malformed_transfer_id
        empty_message :
      Error

abbrev pub insert : TransferRecord → Manager → Manager
insert r m = record m { transfers = BTreeMap.insert r.id.bytes r m.transfers }

-- The record of an offer that is sent.
pub offered_record :
    Manager
    → Env
    → TransferId
    → Fingerprint
    → Session
    → Text
    → ℕ
    → Bytes
    → Bytes
    → Bytes
    → TransferRecord
unfolding deadline_for
offered_record m e id peer session filename size_bytes sha256 mime_type path = record {
  seq = e.next_seq;
  id = id;
  peer = peer;
  direction = sending;
  filename = filename;
  size_bytes = size_bytes;
  sha256 = sha256;
  mime_type = mime_type;
  state = offered;
  challenge = none;
  source = some path;
  temp = none;
  stored_at = none;
  failure = none;
  is_stopped = false;
  session = session;
  deadline = e.now + deadline_for m.config offered;
  stream_active = false;
}

-- What is left once the name, the digest and the id are there.
pub send_offer :
    Env
    → Fingerprint
    → Session
    → Text
    → ℕ × Bytes
    → TransferId
    → Bytes
    → Manager
    → Result TransferId Error × Did
unfolding BTreeMap.insert transition offered_record
send_offer e peer session filename (size_bytes, sha256) id path m =
    let mime_type = e.guess_mime_type filename in
    let m' =
      insert (offered_record m e id peer session filename size_bytes sha256 mime_type path) m in
    let message = offer record {
      transfer_id = id.bytes;
      filename = filename;
      size_bytes = size_bytes;
      mime_type = mime_type;
      sha256 = sha256;
    } in
    let (has_moved, (m'', later)) = transition e id failed (some transport) m' in
    if e.delivers session
    then (ok id, (m', sends session message ∷ []))
    else (err closed, (m'', sends session message ∷ later))

abbrev stops : Manager → Error → Result TransferId Error × Did
stops m why = (err why, (m, []))

-- `offer_file`, of the file's name where it is a text, what hashing it gives and the id that is
-- drawn.
pub offer_file :
    Env
    → Fingerprint
    → Bytes
    → Option Text
    → Option (ℕ × Bytes)
    → Option TransferId
    → Manager
    → Result TransferId Error × Did
unfolding authorized session_for active_count_for send_offer
offer_file e peer path raw_name hashed drawn m =
    let (m', found) = session_for e m peer in
    if not (authorized e peer) then stops m not_authorized else elim found [
      | none ↦ stops m' not_connected
      | some session ↦
          if leb max_concurrent_transfers_per_peer (active_count_for peer m')
          then stops m' too_many
          else elim (sanitize (elim raw_name [ none ↦ [] | some name ↦ name ])) [
            | none ↦ stops m' unsafe_name
            | some filename ↦ elim hashed [
              | none ↦ stops m' io
              | some h ↦ elim drawn [
                | none ↦ stops m' random
                | some id ↦ send_offer e peer session filename h id path m'
              ]
            ]
          ]
    ]

pub validate_offer : Manager → FileOffer → Result (Unit {0}) FailureReason
validate_offer m o =
    if not (length o.sha256 == 32)
    then err bad_metadata
    else if ltb (max_filename_bytes * 4) (byte_len o.filename)
    then err bad_metadata
    else if ltb max_mime_type_bytes (length o.mime_type)
    then err bad_metadata
    else if not (is_some (sanitize o.filename))
    then err bad_metadata
    else if ltb m.config.max_file_bytes o.size_bytes
    then err too_large
    else ok tt

pub waiting_record :
    Manager → Env → TransferId → Fingerprint → Session → Text → FileOffer → TransferRecord
unfolding deadline_for
waiting_record m e id peer session filename o = record {
  seq = e.next_seq;
  id = id;
  peer = peer;
  direction = receiving;
  filename = filename;
  size_bytes = o.size_bytes;
  sha256 = o.sha256;
  mime_type = o.mime_type;
  state = waiting_accept;
  challenge = none;
  source = none;
  temp = none;
  stored_at = none;
  failure = none;
  is_stopped = false;
  session = session;
  deadline = e.now + deadline_for m.config waiting_accept;
  stream_active = false;
}

abbrev pub rejecting : Session → TransferId → FailureReason → Manager → Did
rejecting session id reason m = (m, sends session (reject id.bytes (reason_to_proto reason)) ∷ [])

pub take_offer :
    Env → Fingerprint → Bytes → Session → FileOffer → TransferId → Option Text → Manager → Did
unfolding waiting_record BTreeMap.insert reason_to_proto
take_offer e peer peer_device_id session o id none m = rejecting session id bad_metadata m
take_offer e peer peer_device_id session o id (some filename) m = (
  insert (waiting_record m e id peer session filename o) m,
  asks
        record {
          transfer_id = id;
          peer = peer;
          peer_device_id = peer_device_id;
          filename = filename;
          size_bytes = o.size_bytes;
          mime_type = o.mime_type;
        }
        session
      ∷ [],
)

-- `on_offer`; the question to the person is asked by a task of its own.
pub on_offer :
    Env → Fingerprint → Bytes → Session → FileOffer → Manager → Result (Unit {0}) Error × Did
unfolding authorized BTreeMap.get validate_offer active_count_for take_offer reason_to_proto
    from_bytes
on_offer e peer peer_device_id session o m = elim (from_bytes o.transfer_id) [
  | none ↦ (err malformed_transfer_id, (m, []))
  | some id ↦ (
    ok tt,
    if not (authorized e peer)
        then rejecting session id FailureReason.not_authorized m
        else if is_some (find m id)
        then rejecting session id bad_metadata m
        else elim (validate_offer m o) [
          | err reason ↦ rejecting session id reason m
          | ok x ↦
              if leb max_concurrent_transfers_per_peer (active_count_for peer m)
              then rejecting session id too_many_transfers m
              else take_offer e peer peer_device_id session o id (sanitize o.filename) m
        ],
  )
]

-- The challenge that goes with an acceptance: `none` where one cannot be drawn.
pub challenge_for : Env → StreamRole → Option (Option StreamChallenge)
challenge_for e acceptor = elim e.generates [ none ↦ none | some c ↦ some (some c) ]
challenge_for e dialer = some none

abbrev pub exposed : Option StreamChallenge → Bytes
exposed none = []
exposed (some c) = expose_for_control_message c

abbrev pub dials_if_dialer : StreamRole → TransferId → List Action
dials_if_dialer acceptor id = []
dials_if_dialer dialer id = dials id ∷ []

abbrev pub prepared : Bytes → Option StreamChallenge → TransferRecord → TransferRecord
prepared temp challenge r = record r { temp = some temp; challenge = challenge }

-- The record has its temp file and its challenge.
pub begin_transfer : Env → TransferId → Session → Bytes → Option StreamChallenge → Manager → Did
unfolding change transition clean_up_temp fail expose_for_control_message
begin_transfer e id session temp challenge m =
    let m' = change id (prepared temp challenge) m in
    let (has_moved, (m'', actions)) = transition e id transferring none m' in
    let sent = sends session (accept id.bytes (exposed challenge)) ∷ [] in
    if not (is_some (find m id))
    then (m, [])
    else if not has_moved
    then clean_up_temp id m'
    else if not (e.delivers session)
    then (let (failed_m, later) = fail e id transport m'' in (failed_m, actions ++ (sent ++ later)))
    else (m'', actions ++ (sent ++ dials_if_dialer m.role id))

-- `await_approval`, from the answer on: `accepted` is false where none came in time, and `temp` is
-- what opening the partial file gives.
pub await_approval : Env → IncomingOffer → Session → Bool → Option Bytes → Manager → Did
unfolding fail authorized challenge_for begin_transfer
await_approval e request session accepted temp m =
    let id = request.transfer_id in
    if not accepted
    then fail e id declined_by_user m
    else if not (authorized e request.peer)
    then fail e id revoked m
    else elim temp [
      | none ↦ fail e id storage m
      | some path ↦ elim (challenge_for e m.role) [
        | none ↦ fail e id storage m
        | some challenge ↦ begin_transfer e id session path challenge m
      ]
    ]
