-- ===== src/Files/Transfer.antt =====
-- desktop/capabilities/files/src/transfer.rs: the name of a transfer, the states that it goes through
-- and the reasons that it fails for.
pub mod Hex
pub mod Lifecycle
use anyflow.Prelude.{
  ℕ, ◌+◌, ◌-◌, ◌*◌, ◌/◌, ◌%◌, Bool, true, false, not, ◌&&◌, ◌||◌, Option, none, some, List, [], ◌∷◌,
  length, all, leb, ltb, ◌==◌, if◌then◌else◌, Bytes,
}

abbrev pub transfer_id_len : ℕ
transfer_id_len = 16

pub record TransferId : Type 0 where
  pub bytes : Bytes

unfoldable pub from_bytes : Bytes → Option TransferId
from_bytes bytes = if length bytes == transfer_id_len then some record { bytes = bytes } else none

-- A digit of `{:x}`.
abbrev pub digit : ℕ → ℕ
digit n = if ltb n 10 then b'0' + n else b'a' + (n - 10)

pub hex_of : Bytes → Bytes
hex_of [] = []
hex_of (b ∷ rest) = digit (b / 16) ∷ digit (b % 16) ∷ hex_of rest

pub to_hex : TransferId → Bytes
unfolding hex_of
to_hex id = hex_of id.bytes

abbrev pub is_between : ℕ → ℕ → ℕ → Bool
is_between low high b = leb low b && leb b high

abbrev pub is_ascii_hexdigit : ℕ → Bool
is_ascii_hexdigit b = is_between b'0' b'9' b || is_between b'a' b'f' b || is_between b'A' b'F' b

-- The value of a digit to `from_str_radix(_, 16)`.
abbrev pub value : ℕ → Option ℕ
value b =
    if is_between b'0' b'9' b
    then some (b - b'0')
    else if is_between b'a' b'f' b
    then some (b - b'a' + 10)
    else if is_between b'A' b'F' b
    then some (b - b'A' + 10)
    else none

-- `from_str_radix(_, 16)` of two digits, of the values of each
abbrev pub in_base_16 : Option ℕ → Option ℕ → Option ℕ
in_base_16 (some x) (some y) = some (x * 16 + y)
in_base_16 _ _ = none

abbrev pub from_str_radix : ℕ → ℕ → Option ℕ
from_str_radix h l = in_base_16 (value h) (value l)

abbrev pub put_first : Option ℕ → Option Bytes → Option Bytes
put_first (some b) (some bs) = some (b ∷ bs)
put_first _ _ = none

-- The loop over the two-byte slices.
pub parse_pairs : Bytes → Option Bytes
parse_pairs [] = some []
parse_pairs (h ∷ []) = none
parse_pairs (h ∷ l ∷ rest) = put_first (from_str_radix h l) (parse_pairs rest)

abbrev pub id_of : Option Bytes → Option TransferId
id_of none = none
id_of (some bs) = some record { bytes = bs }

pub from_hex : Bytes → Option TransferId
unfolding parse_pairs
from_hex text =
    if not (length text == transfer_id_len * 2) || not (all is_ascii_hexdigit text)
    then none
    else id_of (parse_pairs text)

pub data TransferState : Type 0 where
  offered waiting_accept transferring verifying completed failed cancelled : TransferState

unfoldable pub is_terminal : TransferState → Bool
is_terminal completed = true
is_terminal failed = true
is_terminal cancelled = true
is_terminal _ = false

unfoldable pub is_active : TransferState → Bool
unfolding is_terminal
is_active s = not (is_terminal s)

unfoldable pub can_transition_to : TransferState → TransferState → Bool
unfolding is_terminal
can_transition_to offered transferring = true
can_transition_to waiting_accept transferring = true
can_transition_to transferring verifying = true
can_transition_to verifying completed = true
can_transition_to transferring completed = true
can_transition_to s failed = not (is_terminal s)
can_transition_to s cancelled = not (is_terminal s)
can_transition_to s next = false

pub data FailureReason : Type 0 where
  declined_by_user not_authorized too_many_transfers too_large bad_metadata timed_out integrity
        storage transport cancelled_by_user revoked unknown_transfer :
      FailureReason

-- `pb::TransferFailureReason`
pub data WireReason : Type 0 where
  unspecified declined_by_user not_authorized too_many_transfers too_large bad_metadata timed_out
        integrity storage transport cancelled_by_user revoked unknown_transfer :
      WireReason

unfoldable pub reason_to_proto : FailureReason → WireReason
reason_to_proto FailureReason.declined_by_user = WireReason.declined_by_user
reason_to_proto FailureReason.not_authorized = WireReason.not_authorized
reason_to_proto FailureReason.too_many_transfers = WireReason.too_many_transfers
reason_to_proto FailureReason.too_large = WireReason.too_large
reason_to_proto FailureReason.bad_metadata = WireReason.bad_metadata
reason_to_proto FailureReason.timed_out = WireReason.timed_out
reason_to_proto FailureReason.integrity = WireReason.integrity
reason_to_proto FailureReason.storage = WireReason.storage
reason_to_proto FailureReason.transport = WireReason.transport
reason_to_proto FailureReason.cancelled_by_user = WireReason.cancelled_by_user
reason_to_proto FailureReason.revoked = WireReason.revoked
reason_to_proto FailureReason.unknown_transfer = WireReason.unknown_transfer

unfoldable pub reason_from_proto : WireReason → FailureReason
reason_from_proto WireReason.declined_by_user = FailureReason.declined_by_user
reason_from_proto WireReason.not_authorized = FailureReason.not_authorized
reason_from_proto WireReason.too_many_transfers = FailureReason.too_many_transfers
reason_from_proto WireReason.too_large = FailureReason.too_large
reason_from_proto WireReason.bad_metadata = FailureReason.bad_metadata
reason_from_proto WireReason.timed_out = FailureReason.timed_out
reason_from_proto WireReason.integrity = FailureReason.integrity
reason_from_proto WireReason.storage = FailureReason.storage
reason_from_proto WireReason.transport = FailureReason.transport
reason_from_proto WireReason.cancelled_by_user = FailureReason.cancelled_by_user
reason_from_proto WireReason.revoked = FailureReason.revoked
reason_from_proto WireReason.unknown_transfer = FailureReason.unknown_transfer
reason_from_proto WireReason.unspecified = FailureReason.unknown_transfer
