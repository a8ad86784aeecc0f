-- ===== src/Clipboard/Manager/Examples.antt =====
-- A phone that may put its texts on the clipboard, and one of them (lib.rs).
use anyflow.Prelude.{
  ℕ, ◌≡◌, refl, true, false, List, some, [], ◌∷◌, replicate, Bytes, cmp_bytes, ok, arith,
}
use anyflow.Store.Policy.{ClipboardPolicy, may_auto_receive}
use anyflow.Clipboard.Events
use anyflow.Clipboard.Suppressions
use anyflow.Clipboard.Text.{ClipboardText, validate}
use anyflow.Clipboard.Manager.{
  ClipboardManager, ClipboardUpdate, Env, apply, new, policy_for, receive, handle_update, queued,
}
use anyflow.Clipboard.Manager.Outbound.{on_local_change}
use anyflow.Clipboard.Manager.Outbound.Echo.{Turn, puts, sees, turns, applied_not_relayed}
use anyflow.Clipboard.Manager.Permitted.{writes, Permitted, applied-Permitted}
use anyflow.Clipboard.Manager.Repeats.{Heard, handle_all, applied_once}

abbrev phone : Bytes
phone = 1 ∷ []

abbrev hi : ClipboardText
hi = record { text = b'h' ∷ b'i' ∷ []; hash = 7 ∷ [] }

abbrev open_policy : ClipboardPolicy
open_policy = record {
  allow_send = true;
  allow_receive = true;
  auto_send = true;
  auto_receive = true;
}

abbrev env : ℕ → Env
env now = record {
  now = now;
  authorizer = some (λ peer. open_policy);
  auto_send_to = phone ∷ [];
  reads = ok (some hi);
  writes = λ text. true;
  queues = λ session. queued;
  random = replicate 16 0;
  sha256 = λ bytes. 7 ∷ [];
}

abbrev manager : ClipboardManager
manager = new (9 ∷ [])

abbrev message : ClipboardUpdate
message = record {
  event_id = replicate 16 5;
  origin_device_id = [];
  text_utf8 = b'h' ∷ b'i' ∷ [];
  content_hash = [];
  sensitive_hint = false;
}

-- Another phone's text is written and seen before the change that brings the first.
abbrev other_text : ClipboardText
other_text = record { text = b'y' ∷ []; hash = 8 ∷ [] }

abbrev seen_between : List Turn
seen_between =
    puts (env 11) other_text false (2 ∷ [])
    ∷ sees (record (env 11) { reads = ok (some other_text) })
    ∷ []

applied_not_relayed_example :
    (on_local_change (env 12) (turns seen_between (apply (env 10) hi false phone manager).0)).1 ≡ []
unfolding apply new Suppressions.new cmp_bytes
applied_not_relayed_example =
    applied_not_relayed (env 10) (env 12) hi false phone seen_between manager refl (omega arith)
      (omega arith) refl refl

was_written : writes (handle_update (env 10) phone phone message manager).1.1 ≡ true
unfolding handle_update receive apply validate policy_for may_auto_receive new Events.new
    Events.admit cmp_bytes
was_written = refl

applied-Permitted_example :
    Permitted
      (env 10)
      phone
      message
      manager
      (handle_update (env 10) phone phone message manager).0
      (handle_update (env 10) phone phone message manager).1.1
applied-Permitted_example = applied-Permitted (env 10) phone phone message manager was_written

abbrev other_message : ClipboardUpdate
other_message = record message { event_id = replicate 16 6 }

-- Another phone sends another text in between, and then the first one again.
abbrev between : List Heard
between = record { env = env 15; peer = 2 ∷ []; device = []; update = other_message } ∷ []

applied_once_example :
    writes
      (handle_update
        (env 20)
        (2 ∷ [])
        []
        message
        (handle_all between (handle_update (env 10) phone phone message manager).0)).1.1
    ≡ false
unfolding new Events.new
applied_once_example =
    applied_once (env 10) (env 20) phone (2 ∷ []) phone [] message message between manager
      was_written refl (omega arith) refl (omega arith)
