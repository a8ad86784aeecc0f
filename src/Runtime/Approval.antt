-- ===== src/Runtime/Approval.antt =====
-- desktop/runtime/src/approval.rs: the offers that wait for a person. Each question has a number,
-- which stands for its `oneshot` channel; a channel whose sender is dropped answers no.
pub mod Decided
pub mod Examples
use anyflow.Prelude.{
  ℕ, ◌+◌, ◌%◌, ◌^◌, Bool, true, false, not, Option, none, some, List, [], ◌∷◌, map, length, ◌==◌,
  if◌then◌else◌, is_some, Bytes, bytes_key,
}
use anyflow.Collections.BTreeMap
use anyflow.Collections.BTreeMap.{BTreeMap, values}

pub data Decision : Type 0 where
  answered unknown : Decision

pub record Pending : Type 0 where
  pub peer : Bytes
  pub reply : ℕ

-- The provider is a channel, whose state is the caller's to say; only its presence is kept here.
pub record FileApproval : Type 0 where
  pub unattended : Bool
  pub provider : Bool
  pub epoch : ℕ  -- u64
  pub pending : BTreeMap Bytes Pending

pub record IncomingOffer : Type 0 where
  pub transfer_id : Bytes
  pub peer : Bytes

-- `try_send` on the provider's queue.
pub data TrySend : Type 0 where
  sent full closed : TrySend

-- The answer to a question.
pub record Answer : Type 0 where
  pub question : ℕ
  pub accepted : Bool

abbrev pub no_to : Pending → Answer
no_to p = record { question = p.reply; accepted = false }

-- `pending.clear()`: every sender is dropped.
abbrev pub declined : FileApproval → List Answer
declined a = map no_to (values a.pending)

pub new : Bool → FileApproval
new unattended = record { unattended = unattended; provider = false; epoch = 0; pending = [] }

pub attach : FileApproval → FileApproval × List Answer
attach a = (record a { provider = true; epoch = (a.epoch + 1) % 2 ^ 64; pending = [] }, declined a)

pub detach : FileApproval → ℕ → FileApproval × List Answer
detach a epoch =
    if not (a.epoch == epoch)
    then (a, [])
    else (record a { provider = false; pending = [] }, declined a)

abbrev pub without : FileApproval → Bytes → FileApproval
without a transfer = record a { pending = BTreeMap.remove transfer a.pending }

abbrev pub answer_to : Option Pending → Bool → List Answer
answer_to none accept = []
answer_to (some p) accept = record { question = p.reply; accepted = accept } ∷ []

abbrev pub decision_on : Option Pending → Decision
decision_on none = unknown
decision_on (some p) = answered

pub decide : FileApproval → Bytes → Bool → FileApproval × Decision × List Answer
unfolding BTreeMap.get BTreeMap.remove
decide a transfer accept =
    let found = BTreeMap.get transfer a.pending in
    (without a transfer, decision_on found, answer_to found accept)

pub withdraw : FileApproval → Bytes → FileApproval × List Answer
unfolding BTreeMap.get BTreeMap.remove
withdraw a transfer = (without a transfer, answer_to (BTreeMap.get transfer a.pending) false)

pub pending_peer : FileApproval → Bytes → Option Bytes
unfolding BTreeMap.get
pending_peer a transfer = elim (BTreeMap.get transfer a.pending) [
  | none ↦ none
  | some p ↦ some p.peer
]

-- Queueing the offer and recording it, under one lock. A record that it replaces drops its sender.
pub ask : FileApproval → IncomingOffer → ℕ → TrySend → FileApproval × List Answer
unfolding BTreeMap.get BTreeMap.insert
ask a offer question sent = (
  record a {
    pending =
        BTreeMap.insert offer.transfer_id (record { peer = offer.peer; reply = question })
          a.pending;
  },
  answer_to (BTreeMap.get offer.transfer_id a.pending) false,
)
ask a offer question _ = (a, record { question = question; accepted = false } ∷ [])

pub confirm_receive : FileApproval → IncomingOffer → ℕ → TrySend → FileApproval × List Answer
unfolding ask
confirm_receive a offer question t =
    if a.unattended
    then (a, record { question = question; accepted = true } ∷ [])
    else if not a.provider
    then (a, record { question = question; accepted = false } ∷ [])
    else ask a offer question t

-- What happens to the rendezvous: the calls, and the guard's drop when a question stops being asked,
-- which withdraws.
pub data Event : Type 0 where
  attaches : Event
  detaches : ℕ → Event
  asks : IncomingOffer → ℕ → TrySend → Event
  decides : Bytes → Bool → Event
  withdraws : Bytes → Event

pub step : FileApproval → Event → FileApproval × List Answer
unfolding attach detach confirm_receive decide withdraw
step a attaches = attach a
step a (detaches epoch) = detach a epoch
step a (asks offer question t) = confirm_receive a offer question t
step a (decides transfer accept) =
    let (a', decision, answers) = decide a transfer accept in (a', answers)
step a (withdraws transfer) = withdraw a transfer

pub run : FileApproval → List Event → FileApproval
unfolding step
run a [] = a
run a (e ∷ es) = run (step a e).0 es
