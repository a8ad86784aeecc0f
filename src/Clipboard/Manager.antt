-- ===== src/Clipboard/Manager.antt =====
-- desktop/capabilities/clipboard/src/lib.rs: what the clipboard capability does with a peer's text
-- and with a change of the local clipboard, over its two caches. The platform's clipboard, the
-- sessions and the host's policies answer as the record Env says; the watcher that calls
-- on_local_change, and logging, are left out.
pub mod Pending
pub mod Outbound
pub mod Permitted
pub mod Repeats
pub mod Examples
use anyflow.Prelude.{
  ℕ, ◌-◌, Bool, true, false, not, ◌&&◌, Option, none, some, List, [], ◌∷◌, ◌++◌, length, keep, take,
  is_nil, leb, ltb, ◌==◌, if◌then◌else◌, Bytes, bytes_key, ◌=?◌, Result, ok, err,
}
use anyflow.Collections.BTreeMap
use anyflow.Collections.BTreeMap.{BTreeMap}
use anyflow.Store.Policy.{ClipboardPolicy, clipboard_denied, may_auto_receive}
use anyflow.Files.Filename.{is_control}
use anyflow.Clipboard.Events
use anyflow.Clipboard.Events.{EventCache, event_cache_entries, event_cache_ttl}
use anyflow.Clipboard.Suppressions
use anyflow.Clipboard.Suppressions.{SuppressionCache, suppression_entries, suppression_ttl}
use anyflow.Clipboard.Text.{ClipboardText, TextRejection, validate, max_clipboard_text_bytes}

abbrev pub Fingerprint : Type 0
Fingerprint = Bytes

abbrev pub event_id_len : ℕ
event_id_len = 16

abbrev pub pending_clip_ttl : ℕ
pending_clip_ttl = 300

abbrev pub max_device_name_len : ℕ
max_device_name_len = 64

pub data Outcome : Type 0 where
  applied pending_user duplicate not_authorized rejected_policy rejected_sensitive too_large
        invalid_text failed :
      Outcome

pub data SendError : Type 0 where
  not_permitted not_connected nothing_to_send backend session_busy : SendError

pub record ClipboardUpdate : Type 0 where
  pub event_id : Bytes
  pub origin_device_id : Bytes
  pub text_utf8 : Bytes
  pub content_hash : Bytes
  pub sensitive_hint : Bool

pub data Body : Type 0 where
  update : ClipboardUpdate → Body
  result : Bytes → Outcome → Body

pub record PendingClip : Type 0 where
  pub text : ClipboardText
  pub sensitive : Bool
  pub origin_device_id : Bytes
  pub received_at : ℕ

pub record ClipboardManager : Type 0 where
  pub local_device_id : Bytes
  pub events : EventCache
  pub suppression : SuppressionCache
  pub sessions : BTreeMap Fingerprint ℕ
  pub pending : BTreeMap Fingerprint PendingClip
  pub last_results : BTreeMap Fingerprint Outcome

-- How a session's queue takes a message within the time that it is given.
pub data Queueing : Type 0 where
  queued gone timed_out : Queueing

-- What a call hears: the clock in seconds, the host's policies where it is wired up, the platform's
-- clipboard, the sessions, random numbers, and SHA-256.
pub record Env : Type 0 where
  pub now : ℕ
  pub authorizer : Option (Fingerprint → ClipboardPolicy)
  pub auto_send_to : List Fingerprint
  pub reads : Result (Option ClipboardText) (Unit {0})
  pub writes : ClipboardText → Bool
  pub queues : ℕ → Queueing
  pub random : Bytes
  pub sha256 : Bytes → Bytes

-- What a call does outside: a write to the platform's clipboard, and a message on a session.
pub data Action : Type 0 where
  wrote : ClipboardText → Bool → Action
  sent : ℕ → Body → Action

pub new : Bytes → ClipboardManager
unfolding Events.new Suppressions.new
new local_device_id = record {
  local_device_id = local_device_id;
  events = Events.new event_cache_entries event_cache_ttl;
  suppression = Suppressions.new suppression_entries suppression_ttl;
  sessions = [];
  pending = [];
  last_results = [];
}

pub attach_session : Fingerprint → ℕ → ClipboardManager → ClipboardManager
unfolding BTreeMap.insert
attach_session peer session m = record m { sessions = BTreeMap.insert peer session m.sessions }

pub detach_session : Fingerprint → ClipboardManager → ClipboardManager
unfolding BTreeMap.remove
detach_session peer m = record m {
  sessions = BTreeMap.remove peer m.sessions;
  pending = BTreeMap.remove peer m.pending;
  last_results = BTreeMap.remove peer m.last_results;
}

-- Fail closed where no host is wired up.
pub policy_for : Env → Fingerprint → ClipboardPolicy
policy_for e peer = elim e.authorizer [ none ↦ clipboard_denied | some policies ↦ policies peer ]

pub auto_send_peers : Env → List Fingerprint
auto_send_peers e = elim e.authorizer [ none ↦ [] | some policies ↦ e.auto_send_to ]

abbrev pub is_denied : ClipboardPolicy → Bool
is_denied p = not p.allow_send && not p.allow_receive

pub sanitize_device_name : Bytes → Bytes
unfolding is_control
sanitize_device_name name = take max_device_name_len (keep (λ c. not (is_control c)) name)

-- `apply`: the suppression is armed before the write, and taken back when the write fails.
pub apply :
    Env
    → ClipboardText
    → Bool
    → Bytes
    → ClipboardManager
    → ClipboardManager × (Outcome × List Action)
unfolding Suppressions.arm Suppressions.take
apply e text sensitive origin m =
    let armed = Suppressions.arm e.now text.hash origin m.suppression in
    if e.writes text
    then (record m { suppression = armed }, (applied, wrote text sensitive ∷ []))
    else (record m { suppression = (Suppressions.take e.now text.hash armed).0 }, (failed, []))

abbrev pub hold : Fingerprint → PendingClip → ClipboardManager → ClipboardManager
hold peer clip m = record m { pending = BTreeMap.insert peer clip m.pending }

-- From the admission of the event on.
pub receive :
    Env
    → Fingerprint
    → Bytes
    → ClipboardUpdate
    → ClipboardText
    → ClipboardManager
    → ClipboardManager × (Outcome × List Action)
unfolding Events.admit policy_for may_auto_receive apply sanitize_device_name BTreeMap.insert
receive e peer peer_device_id u text m =
    let (events, is_new) = Events.admit e.now u.event_id m.events in
    let m' = record m { events = events } in
    let origin =
      if is_nil u.origin_device_id
      then peer_device_id
      else sanitize_device_name u.origin_device_id in
    if not is_new
    then (m', (duplicate, []))
    else if not (may_auto_receive (policy_for e peer))
    then (
      hold peer
          record {
            text = text;
            sensitive = u.sensitive_hint;
            origin_device_id = origin;
            received_at = e.now;
          }
          m',
      (pending_user, []),
    )
    else apply e text u.sensitive_hint origin m'

abbrev pub refusal_of : TextRejection → Outcome
refusal_of (TextRejection.too_large n) = Outcome.too_large
refusal_of _ = invalid_text

pub handle_update :
    Env
    → Fingerprint
    → Bytes
    → ClipboardUpdate
    → ClipboardManager
    → ClipboardManager × (Outcome × List Action)
handle_update e peer peer_device_id u m =
    let policy = policy_for e peer in
    if is_denied policy
    then (m, (not_authorized, []))
    else if not policy.allow_receive
    then (m, (rejected_policy, []))
    else if not (length u.event_id == event_id_len)
    then (m, (invalid_text, []))
    else if ltb max_clipboard_text_bytes (length u.text_utf8)
    then (m, (Outcome.too_large, []))
    else elim (validate e.sha256 u.text_utf8) [
      | err why ↦ (m, (refusal_of why, []))
      | ok text ↦
          if not (is_nil u.content_hash) && not (u.content_hash =? text.hash)
          then (m, (invalid_text, []))
          else receive e peer peer_device_id u text m
    ]

-- `handle_control` of the decoded body: the reply, where there is one.
pub handle_control :
    Env
    → Fingerprint
    → Bytes
    → Option Body
    → ClipboardManager
    → ClipboardManager × (Option Body × List Action)
unfolding handle_update BTreeMap.insert
handle_control e peer peer_device_id none m = (m, (none, []))
handle_control e peer peer_device_id (some (result event_id outcome)) m =
    (record m { last_results = BTreeMap.insert peer outcome m.last_results }, (none, []))
handle_control e peer peer_device_id (some (update u)) m =
    let (m', (outcome, actions)) = handle_update e peer peer_device_id u m in
    (
      m',
      (
        if not (length u.event_id == event_id_len) then none else some (result u.event_id outcome),
        actions,
      ),
    )
