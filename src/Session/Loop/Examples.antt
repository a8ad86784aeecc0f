-- ===== src/Session/Loop/Examples.antt =====
-- Tests and instances of the loop (session.rs, `run_session`).
use anyflow.Prelude.{
  ℕ, ◌≡◌, refl, true, some, List, [], ◌∷◌, ◌++◌, all, replicate, Bytes, cmp_bytes, ok, err, is_some,
  arith,
}
use anyflow.Session.Wire.{DeviceInfo, Body, Envelope}
use anyflow.Session.Capability.{supports}
use anyflow.Session.Replay
use anyflow.Session.Replay.Window.{new-IsValid}
use anyflow.Session.Handshake.{Violation, protocol, EnvelopeFactory}
use anyflow.Session.Loop.{
  Setup, LoopState, queued, delivered, Stimulus, incoming, tick, Moment, plain, begin, run, Draft,
  write_all,
}
use anyflow.Session.Loop.Once.{frame_once}
use anyflow.Session.Loop.Delivery.{is_permitted, run-permitted}
use anyflow.Session.Loop.Liveness.{silent_run_ends}
use anyflow.Session.Loop.Writer.{all_admitted, write_all-all_admitted}

abbrev files : Bytes
files = b'f' ∷ []

abbrev device : DeviceInfo
device = record { device_id = []; device_name = []; platform = 1; identity_fingerprint = [] }

abbrev setup : Setup
setup = record {
  established = record {
    peer = [];
    device = device;
    negotiated_capabilities = files ∷ [];
    protocol_version = 1;
  };
  registry = record { inner = (files, tt) ∷ [] };
  started = 1000;
}

abbrev message : Envelope
message = record {
  protocol_version = 1;
  message_id = replicate 16 3;
  sequence = 3;
  timestamp_unix_ms = 0;
  correlation_id = [];
  body = some (Body.capability_message files (9 ∷ []));
}

abbrev at : ℕ → Stimulus → Moment
at now st = record { now = now; writer_open = true; stimulus = st }

abbrev arrives : Moment
arrives = at 2000 (incoming (some (ok message)))

abbrev quiet : Moment
quiet = at 3000 (tick (1 ∷ []))

abbrev start : LoopState
start = begin setup Replay.new

tests :
    ((run setup start (arrives ∷ quiet ∷ [])).actions ≡ delivered files (9 ∷ []) ∷ [])
    × ((run setup start (arrives ∷ at 62000 (tick (1 ∷ [])) ∷ [])).actions
        ≡ delivered files (9 ∷ []) ∷ queued (plain (Body.ping (1 ∷ []))) ∷ [])
    × ((run setup start (at 181000 (tick []) ∷ [])).stop
        ≡ some (err (protocol Violation.peer_stopped_responding)))
unfolding run begin Replay.admit Replay.new supports cmp_bytes
tests = (refl, refl, refl)

frame_once_example :
    let whole = run setup start ((arrives ∷ quiet ∷ []) ++ arrives ∷ quiet ∷ []) in
    (whole.actions ≡ (run setup start (arrives ∷ quiet ∷ [])).actions)
    × ((v : Violation) × (whole.stop ≡ some (err (protocol v))))
unfolding run begin Replay.admit Replay.new supports cmp_bytes
frame_once_example =
    frame_once setup start message arrives arrives (quiet ∷ []) (quiet ∷ []) refl refl refl

run-permitted_example :
    all (is_permitted setup (arrives ∷ quiet ∷ [])) (run setup start (arrives ∷ quiet ∷ [])).actions
    ≡ true
run-permitted_example = run-permitted setup start (arrives ∷ quiet ∷ [])

silent_run_ends_example : is_some (run setup start (quiet ∷ at 181000 (tick []) ∷ [])).stop ≡ true
unfolding begin
silent_run_ends_example = silent_run_ends setup start (quiet ∷ at 181000 (tick []) ∷ []) refl refl

abbrev factory : EnvelopeFactory
factory = record { protocol_version = 1; sequence = 0 }

abbrev drafts : List Draft
drafts =
    record { request = plain (Body.ping []); drawn = replicate 16 1; at = 0 }
    ∷ record { request = plain (Body.pong []); drawn = replicate 16 2; at = 0 }
    ∷ []

write_all-all_admitted_example : all_admitted Replay.new (write_all factory drafts) ≡ true
unfolding Replay.new cmp_bytes
write_all-all_admitted_example =
    write_all-all_admitted factory Replay.new drafts new-IsValid (omega arith) (omega arith)
      record { whole = refl; different = refl; unseen = refl }
