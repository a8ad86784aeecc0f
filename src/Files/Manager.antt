-- ===== src/Files/Manager.antt =====
-- desktop/capabilities/files/src/lib.rs: the transfers that this device is part of, and how one
-- changes state. A handler is one step here, but for its waits on a person, a stream or the network,
-- where it ends and what follows is a step of its own; what the host, the clock and the channels
-- answer while it runs is the record Env. Events for observers and logging are left out.
pub mod Offers
pub mod Answers
pub mod Streams
pub mod Reaper
pub mod Events
pub mod Evolution
pub mod Examples
use anyflow.Prelude.{
  ℕ, ◌+◌, ◌*◌, Bool, true, false, not, ◌&&◌, ◌||◌, Option, none, some, List, [], ◌∷◌, ◌++◌, map,
  keep, length, if◌then◌else◌, Bytes, bytes_key, ◌=?◌, Result,
}
use anyflow.Collections.BTreeMap
use anyflow.Collections.BTreeMap.{BTreeMap, values}
use anyflow.Files.Filename.{Text}
use anyflow.Files.Auth.{StreamChallenge}
use anyflow.Files.Transfer.{
  TransferId, TransferState, offered, waiting_accept, transferring, verifying, failed, cancelled,
  is_terminal, is_active, can_transition_to, FailureReason, cancelled_by_user, declined_by_user,
  WireReason, reason_to_proto,
}

abbrev pub Fingerprint : Type 0
Fingerprint = Bytes

-- A control channel, `mpsc::Sender<OutboundMessage>`.
abbrev pub Session : Type 0
Session = ℕ

pub data Direction : Type 0 where
  sending receiving : Direction

pub data StreamRole : Type 0 where
  acceptor dialer : StreamRole

pub record FileOffer : Type 0 where
  pub transfer_id : Bytes
  pub filename : Text
  pub size_bytes : ℕ
  pub mime_type : Bytes
  pub sha256 : Bytes

-- `pb::file_control::Body`
pub data Body : Type 0 where
  offer : FileOffer → Body
  accept : Bytes → Bytes → Body
  ready : Bytes → Bytes → Body
  reject : Bytes → WireReason → Body
  cancel : Bytes → WireReason → Body
  failed_with : Bytes → WireReason → Body
  complete : Bytes → Body

pub record IncomingOffer : Type 0 where
  pub transfer_id : TransferId
  pub peer : Fingerprint
  pub peer_device_id : Bytes
  pub filename : Text
  pub size_bytes : ℕ
  pub mime_type : Bytes

-- Durations in seconds. The destination is the file system's.
pub record FilesConfig : Type 0 where
  pub max_file_bytes : ℕ
  pub accept_timeout : ℕ
  pub stream_open_timeout : ℕ

abbrev pub verdict_timeout : ℕ
verdict_timeout = 600

abbrev pub max_concurrent_transfers_per_peer : ℕ
max_concurrent_transfers_per_peer = 4

abbrev pub max_mime_type_bytes : ℕ
max_mime_type_bytes = 128

pub with_destination : FilesConfig
with_destination = record {
  max_file_bytes = 16 * 1024 * 1024 * 1024;
  accept_timeout = 120;
  stream_open_timeout = 30;
}

pub deadline_for : FilesConfig → TransferState → ℕ
deadline_for config offered = config.accept_timeout
deadline_for config waiting_accept = config.accept_timeout
deadline_for config transferring = config.stream_open_timeout
deadline_for config verifying = verdict_timeout
deadline_for config _ = 3600

pub record TransferRecord : Type 0 where
  pub seq : ℕ
  pub id : TransferId
  pub peer : Fingerprint
  pub direction : Direction
  pub filename : Text
  pub size_bytes : ℕ
  pub sha256 : Bytes
  pub mime_type : Bytes
  pub state : TransferState
  pub challenge : Option StreamChallenge
  pub source : Option Bytes
  pub temp : Option Bytes
  pub stored_at : Option Text
  pub failure : Option FailureReason
  pub is_stopped : Bool
  pub session : Session
  pub deadline : ℕ
  pub stream_active : Bool

abbrev pub Transfers : Type 0
Transfers = BTreeMap Bytes TransferRecord

pub record Manager : Type 0 where
  pub role : StreamRole
  pub local_fingerprint : Fingerprint
  pub config : FilesConfig
  pub transfers : Transfers
  pub sessions : BTreeMap Fingerprint Session

-- What a handler hears while it runs: the clock, the counter of records, the host's answer on a peer
-- where one is wired up, whether a channel takes a message and whether it is closed, the challenge
-- that is drawn, and the label that `guess_mime_type` gives a name.
pub record Env : Type 0 where
  pub now : ℕ
  pub next_seq : ℕ
  pub authorizer : Option (Fingerprint → Bool)
  pub delivers : Session → Bool
  pub is_closed : Session → Bool
  pub generates : Option StreamChallenge
  pub guess_mime_type : Text → Bytes

-- What a handler does besides changing the records.
pub data Action : Type 0 where
  sends : Session → Body → Action
  asks : IncomingOffer → Session → Action
  removes : Bytes → Action
  promotes : Bytes → Text → Action
  dials : TransferId → Action

abbrev pub Did : Type 0
Did = Manager × List Action

pub new : StreamRole → Fingerprint → FilesConfig → Manager
new role local_fingerprint config = record {
  role = role;
  local_fingerprint = local_fingerprint;
  config = config;
  transfers = [];
  sessions = [];
}

pub attach_session : Manager → Fingerprint → Session → Manager
unfolding BTreeMap.insert
attach_session m peer session = record m { sessions = BTreeMap.insert peer session m.sessions }

pub session_for : Env → Manager → Fingerprint → Manager × Option Session
unfolding BTreeMap.get BTreeMap.remove
session_for e m peer = elim (BTreeMap.get peer m.sessions) [
  | none ↦ (m, none)
  | some tx ↦
      if not (e.is_closed tx)
      then (m, some tx)
      else (record m { sessions = BTreeMap.remove peer m.sessions }, none)
]

-- Fail closed: an unwired host transfers nothing.
pub authorized : Env → Fingerprint → Bool
authorized e peer = elim e.authorizer [ none ↦ false | some is_authorized ↦ is_authorized peer ]

abbrev pub find : Manager → TransferId → Option TransferRecord
find m id = BTreeMap.get id.bytes m.transfers

-- `get_mut`, and the change made through it.
pub change : TransferId → (TransferRecord → TransferRecord) → Manager → Manager
unfolding BTreeMap.modify
change id f m = record m { transfers = BTreeMap.modify id.bytes f m.transfers }

abbrev pub or_before : Option FailureReason → Option FailureReason → Option FailureReason
or_before none before = before
or_before (some reason) before = some reason

pub moved :
    FilesConfig → Env → TransferState → Option FailureReason → TransferRecord → TransferRecord
unfolding deadline_for is_terminal
moved config e next failure r = record r {
  state = next;
  failure = or_before failure r.failure;
  deadline = e.now + deadline_for config next;
  is_stopped = r.is_stopped || is_terminal next;
  challenge = if is_terminal next then none else r.challenge;
}

abbrev pub without_temp : TransferRecord → TransferRecord
without_temp r = record r { temp = none }

abbrev pub removal_of : Option TransferRecord → List Action
removal_of none = []
removal_of (some r) = elim r.temp [ none ↦ [] | some path ↦ removes path ∷ [] ]

pub clean_up_temp : TransferId → Manager → Did
unfolding change BTreeMap.get
clean_up_temp id m = (change id without_temp m, removal_of (find m id))

pub transition : Env → TransferId → TransferState → Option FailureReason → Manager → Bool × Did
unfolding BTreeMap.get can_transition_to is_terminal moved change clean_up_temp
transition e id next failure m = elim (find m id) [
  | none ↦ (false, (m, []))
  | some r ↦ elim (can_transition_to r.state next) [
    | false ↦ (false, (m, []))
    | true ↦
        let m' = change id (moved m.config e next failure) m in
        (true, if is_terminal next then clean_up_temp id m' else (m', []))
  ]
]

pub is_cancellation : FailureReason → Bool
is_cancellation declined_by_user = true
is_cancellation cancelled_by_user = true
is_cancellation _ = false

pub ending : FailureReason → TransferState
unfolding is_cancellation
ending reason = if is_cancellation reason then cancelled else failed

pub notice : TransferId → FailureReason → Body
unfolding is_cancellation reason_to_proto
notice id reason =
    if is_cancellation reason
    then cancel id.bytes (reason_to_proto reason)
    else failed_with id.bytes (reason_to_proto reason)

abbrev pub tells : TransferId → FailureReason → Option TransferRecord → List Action
tells id reason none = []
tells id reason (some r) = sends r.session (notice id reason) ∷ []

-- `fail`: the peer is told where the transfer ended by it.
pub fail : Env → TransferId → FailureReason → Manager → Did
unfolding transition ending notice BTreeMap.get
fail e id reason m =
    let (has_moved, (m', actions)) = transition e id (ending reason) (some reason) m in
    (m', if has_moved then actions ++ tells id reason (find m id) else actions)

abbrev pub is_live : Option TransferRecord → Bool
is_live none = false
is_live (some r) = is_active r.state

pub cancel_transfer : Env → TransferId → Manager → Bool × Did
unfolding fail is_active BTreeMap.get
cancel_transfer e id m =
    if not (is_live (find m id)) then (false, (m, [])) else (true, fail e id cancelled_by_user m)

pub is_active_with : Fingerprint → TransferRecord → Bool
unfolding is_active
is_active_with peer r = (r.peer =? peer) && is_active r.state

pub fail_all : Env → List (TransferId × FailureReason) → Manager → Did
unfolding fail
fail_all e [] m = (m, [])
fail_all e ((id, reason) ∷ rest) m =
    let (m', actions) = fail e id reason m in
    let (m'', later) = fail_all e rest m' in (m'', actions ++ later)

pub cancel_peer : Env → Fingerprint → FailureReason → Manager → Did
unfolding fail_all is_active_with
cancel_peer e peer reason m =
    fail_all e (map (λ r. (r.id, reason)) (keep (is_active_with peer) (values m.transfers))) m

pub active_count_for : Fingerprint → Manager → ℕ
unfolding is_active_with
active_count_for peer m = length (keep (is_active_with peer) (values m.transfers))
