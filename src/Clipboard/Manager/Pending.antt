-- ===== src/Clipboard/Manager/Pending.antt =====
-- desktop/capabilities/clipboard/src/lib.rs: the clips that wait for a person.
use anyflow.Prelude.{
  ℕ, ◌-◌, Bool, not, none, some, List, [], ◌∷◌, length, ltb, if◌then◌else◌, bytes_key, Result, ok,
  err,
}
use anyflow.Collections.BTreeMap
use anyflow.Collections.BTreeMap.{BTreeMap}
use anyflow.Clipboard.Suppressions
use anyflow.Clipboard.Manager.{
  Fingerprint, pending_clip_ttl, SendError, not_permitted, nothing_to_send, backend, PendingClip,
  ClipboardManager, Env, Action, wrote, policy_for, hold,
}

abbrev pub is_fresh : ℕ → PendingClip → Bool
is_fresh now clip = ltb (now - clip.received_at) pending_clip_ttl

-- `pending.retain(..)`
pub retain_fresh : ℕ → BTreeMap Fingerprint PendingClip → BTreeMap Fingerprint PendingClip
retain_fresh now [] = []
retain_fresh now ((peer, clip) ∷ rest) =
    let later = retain_fresh now rest in if is_fresh now clip then (peer, clip) ∷ later else later

pub pending_clips : Env → ClipboardManager → ClipboardManager
unfolding retain_fresh
pending_clips e m = record m { pending = retain_fresh e.now m.pending }

-- The clip that was held, once it is taken out: a failed write puts it back.
pub apply_held :
    Env
    → Fingerprint
    → PendingClip
    → ClipboardManager
    → ClipboardManager × (Result ℕ SendError × List Action)
unfolding Suppressions.arm Suppressions.take pending_clips BTreeMap.insert
apply_held e peer clip m =
    let armed = Suppressions.arm e.now clip.text.hash clip.origin_device_id m.suppression in
    let released = (Suppressions.take e.now clip.text.hash armed).0 in
    if e.writes clip.text
    then (
      record m { suppression = armed },
      (ok (length clip.text.text), wrote clip.text clip.sensitive ∷ []),
    )
    else (pending_clips e (hold peer clip (record m { suppression = released })), (err backend, []))

pub apply_pending :
    Env → Fingerprint → ClipboardManager → ClipboardManager × (Result ℕ SendError × List Action)
unfolding policy_for apply_held BTreeMap.get BTreeMap.remove
apply_pending e peer m =
    let m' = record m { pending = BTreeMap.remove peer m.pending } in
    if not (policy_for e peer).allow_receive
    then (m, (err not_permitted, []))
    else elim (BTreeMap.get peer m.pending) [
      | none ↦ (m', (err nothing_to_send, []))
      | some clip ↦
          if is_fresh e.now clip then apply_held e peer clip m' else (m', (err nothing_to_send, []))
    ]
