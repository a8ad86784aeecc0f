-- ===== src/Clipboard/Manager/Outbound.antt =====
-- desktop/capabilities/clipboard/src/lib.rs: sending the local text, asked for or after a change of
-- the clipboard.
pub mod Echo
use anyflow.Prelude.{
  ℕ, ◌-◌, Bool, true, false, not, Option, none, some, List, [], ◌∷◌, ◌++◌, length, ltb,
  if◌then◌else◌, Bytes, bytes_key, ◌=?◌, Result, ok, err,
}
use anyflow.Collections.BTreeMap
use anyflow.Collections.BTreeMap.{BTreeMap}
use anyflow.Clipboard.Suppressions
use anyflow.Clipboard.Text.{ClipboardText}
use anyflow.Clipboard.Manager.{
  Fingerprint, pending_clip_ttl, SendError, not_permitted, not_connected, nothing_to_send, backend,
  session_busy, Body, update, PendingClip, ClipboardManager, queued, gone, timed_out, Env, Action,
  wrote, sent, policy_for, auto_send_peers, hold,
}

-- `new_event`, encoded.
pub event_of : Env → ClipboardManager → ClipboardText → Bool → Body
event_of e m text sensitive = update record {
  event_id = e.random;
  origin_device_id = m.local_device_id;
  text_utf8 = text.text;
  content_hash = text.hash;
  sensitive_hint = sensitive;
}

pub deliver :
    Env → Fingerprint → Body → ClipboardManager → Result (Unit {0}) SendError × List Action
unfolding BTreeMap.get
deliver e peer event m = elim (BTreeMap.get peer m.sessions) [
  | none ↦ (err not_connected, [])
  | some session ↦ elim (e.queues session) [
    | queued ↦ (ok tt, sent session event ∷ [])
    | gone ↦ (err not_connected, [])
    | timed_out ↦ (err session_busy, [])
  ]
]

abbrev with_length :
    ClipboardText → Result (Unit {0}) SendError × List Action → Result ℕ SendError × List Action
with_length text (ok x, actions) = (ok (length text.text), actions)
with_length text (err why, actions) = (err why, actions)

pub send_text :
    Env → Fingerprint → ClipboardText → Bool → ClipboardManager → Result ℕ SendError × List Action
unfolding policy_for event_of deliver
send_text e peer text sensitive m =
    if not (policy_for e peer).allow_send
    then (err not_permitted, [])
    else with_length text (deliver e peer (event_of e m text sensitive) m)

pub send_current_clipboard :
    Env → Fingerprint → Bool → ClipboardManager → Result ℕ SendError × List Action
unfolding policy_for event_of deliver
send_current_clipboard e peer sensitive m =
    if not (policy_for e peer).allow_send then (err not_permitted, []) else elim e.reads [
      | err why ↦ (err backend, [])
      | ok none ↦ (err nothing_to_send, [])
      | ok (some text) ↦ with_length text (deliver e peer (event_of e m text sensitive) m)
    ]

pub deliver_all : Env → List Fingerprint → Body → ClipboardManager → List Action
unfolding deliver
deliver_all e [] event m = []
deliver_all e (peer ∷ rest) event m = (deliver e peer event m).1 ++ deliver_all e rest event m

-- What follows the look at the suppressions: an echo goes no further.
pub push_out : Env → ClipboardText → ClipboardManager → Option Bytes → List Action
unfolding deliver_all auto_send_peers event_of
push_out e text m (some origin) = []
push_out e text m none = deliver_all e (auto_send_peers e) (event_of e m text false) m

pub on_local_change : Env → ClipboardManager → ClipboardManager × List Action
unfolding Suppressions.take push_out
on_local_change e m = elim e.reads [
  | err why ↦ (m, [])
  | ok none ↦ (m, [])
  | ok (some text) ↦
      let (suppression, origin) = Suppressions.take e.now text.hash m.suppression in
      let m' = record m { suppression = suppression } in (m', push_out e text m' origin)
]
