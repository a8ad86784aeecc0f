-- ===== src/Clipboard/Manager/Permitted.antt =====
-- What a peer may put on the clipboard (lib.rs, `handle_update`).
use anyflow.Prelude.{
  ◌≡◌, refl, sym, any, Bool, ◌∙◌, ap, subst, true, false, not, ◌&&◌, List, [], ◌∷◌, length, is_nil,
  ltb, ◌==◌, ==_iff, Bytes, bytes_key, ◌=?◌, ok, err, Result-cases, Bool-cases, inl, inr, arith,
}
use anyflow.Store.Policy.{may_auto_receive}
use anyflow.Clipboard.Events
use anyflow.Clipboard.Text.{ClipboardText, TextRejection, validate, max_clipboard_text_bytes}
use anyflow.Clipboard.Manager.{
  Fingerprint, ClipboardManager, ClipboardUpdate, Env, Outcome, Action, wrote, sent, event_id_len,
  policy_for, is_denied, apply, receive, handle_update,
}

abbrev pub is_write : Action → Bool
is_write (wrote text sensitive) = true
is_write (sent session body) = false

-- Whether a call writes to the clipboard.
abbrev pub writes : List Action → Bool
writes actions = any is_write actions

-- What an update that is written to the clipboard fulfils.
pub record Permitted (e : Env) (peer : Fingerprint) (u : ClipboardUpdate) (m m' : ClipboardManager)
    (actions : List Action) : Type 0 where
  pub allowed : may_auto_receive (policy_for e peer) ≡ true
  pub identified : length u.event_id ≡ event_id_len
  pub text : ClipboardText
  pub valid : validate e.sha256 u.text_utf8 ≡ ok text
  pub is_new : (Events.admit e.now u.event_id m.events).1 ≡ true
  pub remembered : m'.events ≡ (Events.admit e.now u.event_id m.events).0
  pub written : actions ≡ wrote text u.sensitive_hint ∷ []

received-Permitted :
    (e : Env) (peer : Fingerprint) (device : Bytes) (u : ClipboardUpdate) (text : ClipboardText)
    (m : ClipboardManager)
    → length u.event_id ≡ event_id_len
    → validate e.sha256 u.text_utf8 ≡ ok text
    → writes (receive e peer device u text m).1.1 ≡ true
    → Permitted e peer u m (receive e peer device u text m).0 (receive e peer device u text m).1.1
unfolding receive apply
received-Permitted e peer device u text m identified valid h =
    elim (Bool-cases (Events.admit e.now u.event_id m.events).1) [
      | inr old ↦ absurd (ground arith)
      | inl is_new ↦ elim (Bool-cases (may_auto_receive (policy_for e peer))) [
        | inr asks ↦ absurd (ground arith)
        | inl allowed ↦ elim (Bool-cases (e.writes text)) [
          | inr broken ↦ absurd (ground arith)
          | inl done ↦ record {
            allowed = allowed;
            identified = identified;
            text = text;
            valid = valid;
            is_new = is_new;
            remembered = ground arith;
            written = ground arith;
          }
        ]
      ]
    ]

refused_outcome :
    (e : Env) (peer : Fingerprint) (device : Bytes) (u : ClipboardUpdate) (m : ClipboardManager)
    (why : TextRejection)
    → is_denied (policy_for e peer) ≡ false
    → (policy_for e peer).allow_receive ≡ true
    → (length u.event_id == event_id_len) ≡ true
    → ltb max_clipboard_text_bytes (length u.text_utf8) ≡ false
    → validate e.sha256 u.text_utf8 ≡ err why
    → writes (handle_update e peer device u m).1.1 ≡ true
    → ⊥
unfolding handle_update
refused_outcome e peer device u m why known may whole fits invalid h =
    let same : (handle_update e peer device u m).1.1 ≡ [] =
      rw (handle_update, known, may, whole, fits, invalid) refl in
    let quiet : writes (handle_update e peer device u m).1.1 ≡ false = ap writes same in
    absurd (ground arith)

-- Where every test before the cache is passed, the update goes on to it.
goes_on :
    (e : Env) (peer : Fingerprint) (device : Bytes) (u : ClipboardUpdate) (m : ClipboardManager)
    → writes (handle_update e peer device u m).1.1 ≡ true
    → (length u.event_id ≡ event_id_len)
      × ((text : ClipboardText) × ((validate e.sha256 u.text_utf8 ≡ ok text)
            × (handle_update e peer device u m ≡ receive e peer device u text m)))
unfolding handle_update
goes_on e peer device u m h =
    let policy = policy_for e peer in
    elim (Bool-cases (is_denied policy)) [
      | inl denied ↦ absurd (ground arith)
      | inr known ↦ elim (Bool-cases policy.allow_receive) [
        | inr shut ↦ absurd (ground arith)
        | inl may ↦ elim (Bool-cases (length u.event_id == event_id_len)) [
          | inr short ↦ absurd (ground arith)
          | inl whole ↦ elim (Bool-cases (ltb max_clipboard_text_bytes (length u.text_utf8))) [
            | inl large ↦ absurd (ground arith)
            | inr fits ↦ elim (Result-cases (validate e.sha256 u.text_utf8)) [
              | inr (why, invalid) ↦
                  absurd (refused_outcome e peer device u m why known may whole fits invalid h)
              | inl (text, valid) ↦
                  elim (Bool-cases
                    (not (is_nil u.content_hash) && not (u.content_hash =? text.hash))) [
                      | inl odd ↦ absurd (ground arith)
                      | inr matches ↦ (
                        (==_iff (length u.event_id) event_id_len).0 whole,
                        (
                          text,
                          (valid, rw (handle_update, known, may, whole, fits, valid, matches) refl),
                        ),
                      )
                    ]
            ]
          ]
        ]
      ]
    ]

-- Handling a peer's update writes to the clipboard only where the policy in force lets that peer do so
-- unasked, the text is valid, and its event is new; then it writes the text as it came, once, and
-- nothing else.
pub applied-Permitted :
    (e : Env) (peer : Fingerprint) (device : Bytes) (u : ClipboardUpdate) (m : ClipboardManager)
    → writes (handle_update e peer device u m).1.1 ≡ true
    → Permitted e peer u m (handle_update e peer device u m).0 (handle_update e peer device u m).1.1
applied-Permitted e peer device u m h =
    let (identified, (text, (valid, same))) = goes_on e peer device u m h in
    subst (λ (x : ClipboardManager × (Outcome × List Action)). Permitted e peer u m x.0 x.1.1)
      (sym same)
      (received-Permitted e peer device u text m identified valid
        (ap (λ (x : ClipboardManager × (Outcome × List Action)). writes x.1.1) (sym same) ∙ h))
