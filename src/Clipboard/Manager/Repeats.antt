-- ===== src/Clipboard/Manager/Repeats.antt =====
-- An update that comes again (lib.rs, `handle_update`).
use anyflow.Prelude.{
  ℕ, ◌-◌, ◌≤◌, ◌<◌, ◌≡◌, refl, ◌∙◌, ap, subst, Bool, true, false, not, ◌&&◌, List, [], ◌∷◌, length,
  all, is_nil, ltb, ◌==◌, Bytes, bytes_key, ◌=?◌, Result-cases, Bool-cases, inl, inr, ◌⊎◌, arith,
}
use anyflow.Store.Policy.{may_auto_receive}
use anyflow.Clipboard.Events
use anyflow.Clipboard.Events.{EventCache, Entry}
use anyflow.Clipboard.Events.Once.{admit_once, run}
use anyflow.Clipboard.Text.{ClipboardText, validate, max_clipboard_text_bytes}
use anyflow.Clipboard.Manager.{
  Fingerprint, ClipboardManager, ClipboardUpdate, Env, event_id_len, policy_for, is_denied, apply,
  receive, handle_update,
}
use anyflow.Clipboard.Manager.Permitted.{writes, applied-Permitted}

-- An update, with the peer that it comes from and what the handler hears.
pub record Heard : Type 0 where
  pub env : Env
  pub peer : Fingerprint
  pub device : Bytes
  pub update : ClipboardUpdate

unfoldable pub handle_all : List Heard → ClipboardManager → ClipboardManager
handle_all [] m = m
handle_all (h ∷ hs) m = handle_all hs (handle_update h.env h.peer h.device h.update m).0

-- The cache of events is as it was, or was asked for this event.
abbrev Asked : Env → ClipboardUpdate → EventCache → EventCache → Type 0
Asked e u c c' = (c' ≡ c) ⊎ (c' ≡ (Events.admit e.now u.event_id c).0)

receive-Asked :
    (e : Env) (peer : Fingerprint) (device : Bytes) (u : ClipboardUpdate) (text : ClipboardText)
    (m : ClipboardManager)
    → (receive e peer device u text m).0.events ≡ (Events.admit e.now u.event_id m.events).0
unfolding receive apply
receive-Asked e peer device u text m =
    elim (Bool-cases (Events.admit e.now u.event_id m.events).1) [
      | inr old ↦ ground arith
      | inl is_new ↦ elim (Bool-cases (may_auto_receive (policy_for e peer))) [
        | inr asks ↦ ground arith
        | inl allowed ↦ elim (Bool-cases (e.writes text)) [
          | inr broken ↦ ground arith
          | inl done ↦ ground arith
        ]
      ]
    ]

update-Asked :
    (e : Env) (peer : Fingerprint) (device : Bytes) (u : ClipboardUpdate) (m : ClipboardManager)
    → Asked e u m.events (handle_update e peer device u m).0.events
unfolding handle_update
update-Asked e peer device u m =
    let policy = policy_for e peer in
    elim (Bool-cases (is_denied policy)) [
      | inl denied ↦ inl (ground arith)
      | inr known ↦ elim (Bool-cases policy.allow_receive) [
        | inr shut ↦ inl (ground arith)
        | inl may ↦ elim (Bool-cases (length u.event_id == event_id_len)) [
          | inr short ↦ inl (ground arith)
          | inl whole ↦ elim (Bool-cases (ltb max_clipboard_text_bytes (length u.text_utf8))) [
            | inl large ↦ inl (ground arith)
            | inr fits ↦ elim (Result-cases (validate e.sha256 u.text_utf8)) [
              | inr (why, invalid) ↦ inl (rw (handle_update, known, may, whole, fits, invalid) refl)
              | inl (text, valid) ↦
                  elim (Bool-cases
                    (not (is_nil u.content_hash) && not (u.content_hash =? text.hash))) [
                      | inl odd ↦ inl (rw (handle_update, known, may, whole, fits, valid, odd) refl)
                      | inr matches ↦ inr (
                          rw (handle_update, known, may, whole, fits, valid, matches)
                            (receive-Asked e peer device u text m))
                    ]
            ]
          ]
        ]
      ]
    ]

-- Whether each comes before the time to live is over.
abbrev pub in_time : ℕ → ℕ → List Heard → Bool
in_time at ttl hs = all (λ (h : Heard). ltb (h.env.now - at) ttl) hs

-- What the updates ask of the cache of events.
record Asks (at ttl : ℕ) (hs : List Heard) (c c' : EventCache) : Type 0 where
  entries : List Entry
  ran : c' ≡ run c entries
  few : length entries ≤ length hs
  near : all (λ (x : Entry). ltb (x.1 - at) ttl) entries ≡ true

all-Asks :
    (at ttl : ℕ) (hs : List Heard) (m : ClipboardManager)
    → in_time at ttl hs ≡ true
    → Asks at ttl hs m.events (handle_all hs m).events
unfolding handle_all run
all-Asks at ttl [] m near = record { entries = []; ran = refl; few = omega arith; near = refl }
all-Asks at ttl (h ∷ hs) m near =
    let rest =
      all-Asks at ttl hs (handle_update h.env h.peer h.device h.update m).0 (ground arith) in
    elim (update-Asked h.env h.peer h.device h.update m) [
      | inl same ↦ record {
        entries = rest.entries;
        ran = rest.ran ∙ ap (λ c. run c rest.entries) same;
        few = omega (arith, rest.few);
        near = rest.near;
      }
      | inr asked ↦ record {
        entries = (h.update.event_id, h.env.now) ∷ rest.entries;
        ran = rest.ran ∙ ap (λ c. run c rest.entries) asked;
        few = omega (arith, rest.few);
        near = ground (arith, rest.near);
      }
    ]

-- Once an update has been written to the clipboard, no update with its event id writes again within
-- the cache's time to live, whichever peer sends it and whatever it carries, after any updates in
-- between that are fewer than the cache holds and come within that time.
pub applied_once :
    (e later : Env) (peer other : Fingerprint) (device device' : Bytes) (u v : ClipboardUpdate)
    (between : List Heard) (m : ClipboardManager)
    → writes (handle_update e peer device u m).1.1 ≡ true
    → v.event_id ≡ u.event_id
    → later.now - e.now < m.events.ttl
    → in_time e.now m.events.ttl between ≡ true
    → length between < m.events.capacity
    → writes
        (handle_update later other device' v
          (handle_all between (handle_update e peer device u m).0)).1.1
      ≡ false
applied_once e later peer other device device' u v between m h same live near room =
    let m' = (handle_update e peer device u m).0 in
    let m'' = handle_all between m' in
    elim (Bool-cases (writes (handle_update later other device' v m'').1.1)) [
      | inr quiet ↦ quiet
      | inl again ↦
          let first = applied-Permitted e peer device u m h in
          let second = applied-Permitted later other device' v m'' again in
          let asks = all-Asks e.now m.events.ttl between m' near in
          let refused =
            admit_once m.events u.event_id e.now later.now asks.entries first.is_new asks.near live
              (omega (arith, asks.few)) in
          let cache : m''.events ≡ run (Events.admit e.now u.event_id m.events).0 asks.entries =
            asks.ran ∙ ap (λ c. run c asks.entries) first.remembered in
          let it = ap (λ c. (Events.admit later.now u.event_id c).1) cache ∙ refused in
          let now_new =
            subst (λ i. (Events.admit later.now i m''.events).1 ≡ true) same second.is_new in
          absurd (ground arith)
    ]
