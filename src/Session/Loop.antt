-- ===== src/Session/Loop.antt =====
-- desktop/core/src/session.rs, `run_session`: the loop of an established session, one step for each
-- branch of the `select!`, and the writer's task with the envelopes that it builds. Times are in
-- milliseconds.
pub mod Guarded
pub mod Once
pub mod Delivery
pub mod Liveness
pub mod Writer
pub mod Examples
use anyflow.Prelude.{
  ℕ, ◌+◌, ◌-◌, ◌*◌, ◌%◌, ◌^◌, Bool, true, false, not, Option, none, some, List, [], ◌∷◌, ◌++◌, any,
  keep, length, leb, ltb, ◌==◌, if◌then◌else◌, Bytes, bytes_key, ◌=?◌, Result, ok, err,
}
use anyflow.Session.Wire.{ErrorMessage, Body, Envelope}
use anyflow.Session.Capability.{CapabilityRegistry, supports}
use anyflow.Session.Replay.{ReplayGuard}
use anyflow.Session.Replay
use anyflow.Session.Handshake.{
  Violation, Error, closed, protocol, peer_error, Established, EnvelopeFactory,
}

abbrev pub max_ping_payload : ℕ
max_ping_payload = 64

abbrev pub liveness_probe_after : ℕ
liveness_probe_after = 60 * 1000

abbrev pub liveness_dead_after : ℕ
liveness_dead_after = 180 * 1000

abbrev pub liveness_stale_after : ℕ
liveness_stale_after = 90 * 1000

-- `ErrorCode::UnsupportedCapability`
abbrev pub unsupported_capability : ℕ
unsupported_capability = 3

-- `ErrorCode::try_from(code).unwrap_or(Unspecified)`
abbrev pub known_code : ℕ → ℕ
known_code code = if ltb code 8 then code else 0

-- "capability not negotiated"
abbrev pub not_negotiated : Bytes
not_negotiated =
    b'c' ∷ b'a' ∷ b'p' ∷ b'a' ∷ b'b' ∷ b'i' ∷ b'l' ∷ b'i' ∷ b't' ∷ b'y' ∷ b' ' ∷ b'n' ∷ b'o' ∷ b't'
    ∷ b' ' ∷ b'n' ∷ b'e' ∷ b'g' ∷ b'o' ∷ b't' ∷ b'i' ∷ b'a' ∷ b't' ∷ b'e' ∷ b'd' ∷ []

pub record WriteRequest : Type 0 where
  pub body : Body
  pub message_id : Option Bytes
  pub correlation_id : Bytes

abbrev pub plain : Body → WriteRequest
plain body = record { body = body; message_id = none; correlation_id = [] }

abbrev pub reply_to : Body → Bytes → WriteRequest
reply_to body correlate = record { body = body; message_id = none; correlation_id = correlate }

abbrev pub with_id : Body → Bytes → WriteRequest
with_id body message_id = record { body = body; message_id = some message_id; correlation_id = [] }

-- A ping carries its random payload and message id.
pub data Command : Type 0 where
  ping : Bytes → Bytes → Command
  send_capability : Bytes → Bytes → Command
  shutdown : Command

pub record Setup : Type 0 where
  pub established : Established
  pub registry : CapabilityRegistry
  pub started : ℕ

-- A ping that waits for its pong: its message id, and when it was sent.
pub record LoopState : Type 0 where
  pub guard : ReplayGuard
  pub pending_ping : Option (Bytes × ℕ)
  pub last_inbound : ℕ
  pub last_inbound_ms : ℕ

-- What the loop does outside itself: it queues a frame, hands a payload to a capability, or answers
-- the caller of a ping with the round trip.
pub data Action : Type 0 where
  queued : WriteRequest → Action
  delivered : Bytes → Bytes → Action
  measured : ℕ → Action

-- What the `select!` wakes up for. `none` is a closed channel, and a writer that panicked.
pub data Stimulus : Type 0 where
  incoming : Option (Result Envelope Error) → Stimulus
  command : Command → Stimulus
  writer_joined : Option (Result (Unit {0}) Error) → Stimulus
  tick : Bytes → Stimulus
  exhausted : Stimulus

-- At what time, and whether the writer still takes requests.
pub record Moment : Type 0 where
  pub now : ℕ
  pub writer_open : Bool
  pub stimulus : Stimulus

pub record Step : Type 0 where
  pub state : LoopState
  pub actions : List Action
  pub stop : Option (Result (Unit {0}) Error)

abbrev pub goes_on : LoopState → List Action → Step
goes_on s actions = record { state = s; actions = actions; stop = none }

abbrev pub breaks : LoopState → Result (Unit {0}) Error → Step
breaks s r = record { state = s; actions = []; stop = some r }

-- `if write_tx.send(request).await.is_err() { break Ok(()); }`
abbrev pub send : Bool → LoopState → WriteRequest → Step
send writer_open s w = if writer_open then goes_on s (queued w ∷ []) else breaks s (ok tt)

pub on_pong : Moment → LoopState → Bytes → Option (Bytes × ℕ) → Step
on_pong m s correlation_id none = goes_on s []
on_pong m s correlation_id (some (id, sent_at)) =
    if correlation_id =? id
    then goes_on (record s { pending_ping = none }) (measured (m.now - sent_at) ∷ [])
    else goes_on s []

pub on_capability : Setup → Moment → LoopState → Envelope → Bytes → Bytes → Step
on_capability u m s env id payload =
    if not (any (λ c. c =? id) u.established.negotiated_capabilities)
    then send m.writer_open s (
        reply_to
          (Body.error
            record { code = unsupported_capability; message = not_negotiated; fatal = false })
          env.message_id)
    else if supports u.registry id
    then goes_on s (delivered id payload ∷ [])
    else goes_on s []

pub on_body : Setup → Moment → LoopState → Envelope → Option Body → Step
unfolding on_pong on_capability
on_body u m s env (some (Body.ping payload)) =
    if ltb max_ping_payload (length payload)
    then breaks s (err (protocol Violation.ping_too_large))
    else send m.writer_open s (reply_to (Body.pong payload) env.message_id)
on_body u m s env (some (Body.pong payload)) = on_pong m s env.correlation_id s.pending_ping
on_body u m s env (some (Body.capability_message id payload)) = on_capability u m s env id payload
on_body u m s env (some (Body.capability_announce ids)) = goes_on s []
on_body u m s env (some (Body.error e)) =
    if e.fatal then breaks s (err (peer_error (known_code e.code))) else goes_on s []
on_body u m s env _ = breaks s (err (protocol Violation.unexpected_message))

abbrev pub heard : Setup → Moment → LoopState → LoopState
heard u m s = record s { last_inbound = m.now; last_inbound_ms = m.now - u.started }

-- What follows the guard's verdict.
pub on_verdict :
    Setup → Moment → LoopState → Envelope → ReplayGuard × Result (Unit {0}) Replay.Error → Step
unfolding on_body
on_verdict u m s env (guard, err v) =
    breaks (record s { guard = guard }) (err (protocol (Violation.replay v)))
on_verdict u m s env (guard, ok x) = on_body u m (record s { guard = guard }) env env.body

pub on_envelope : Setup → Moment → LoopState → Envelope → Step
unfolding on_verdict
on_envelope u m s env =
    if not (env.protocol_version == u.established.protocol_version)
    then breaks (heard u m s) (err (protocol Violation.version_changed))
    else on_verdict u m (heard u m s) env (Replay.admit s.guard env)

pub on_incoming : Setup → Moment → LoopState → Option (Result Envelope Error) → Step
unfolding on_envelope
on_incoming u m s (some (ok env)) = on_envelope u m s env
on_incoming u m s (some (err closed)) = breaks s (ok tt)
on_incoming u m s (some (err e)) = breaks s (err e)
on_incoming u m s none = breaks s (ok tt)

pub on_command : Moment → LoopState → Command → Step
on_command m s shutdown = breaks s (ok tt)
on_command m s (ping payload id) =
    if m.writer_open
    then goes_on (record s { pending_ping = some (id, m.now) })
        (queued (with_id (Body.ping payload) id) ∷ [])
    else breaks s (ok tt)
on_command m s (send_capability id payload) =
    send m.writer_open s (plain (Body.capability_message id payload))

pub on_writer : LoopState → Option (Result (Unit {0}) Error) → Step
on_writer s (some (err e)) = breaks s (err e)
on_writer s _ = breaks s (ok tt)

pub on_tick : Moment → LoopState → Bytes → Step
on_tick m s payload =
    let silent_for = m.now - s.last_inbound in
    if leb liveness_dead_after silent_for
    then breaks s (err (protocol Violation.peer_stopped_responding))
    else if leb liveness_probe_after silent_for
    then send m.writer_open s (plain (Body.ping payload))
    else goes_on s []

pub step : Setup → LoopState → Moment → Stimulus → Step
unfolding on_incoming on_command on_writer on_tick
step u s m (incoming r) = on_incoming u m s r
step u s m (command c) = on_command m s c
step u s m (writer_joined r) = on_writer s r
step u s m (tick payload) = on_tick m s payload
step u s m exhausted = breaks s (ok tt)

-- What a run has done, and how it stands after the moments that it was given.
pub record Ran : Type 0 where
  pub state : LoopState
  pub actions : List Action
  pub stop : Option (Result (Unit {0}) Error)

-- The loop: nothing happens after it breaks.
pub run : Setup → LoopState → List Moment → Ran
unfolding step
run u s [] = record { state = s; actions = []; stop = none }
run u s (m ∷ ms) =
    let now = step u s m m.stimulus in
    let later = run u now.state ms in
    elim now.stop [
      | some r ↦ record { state = now.state; actions = now.actions; stop = some r }
      | none ↦ record later { actions = now.actions ++ later.actions }
    ]

pub begin : Setup → ReplayGuard → LoopState
begin u guard = record {
  guard = guard;
  pending_ping = none;
  last_inbound = u.started;
  last_inbound_ms = 0;
}

-- The capabilities that are told of the connection, and of its end.
pub attached : Setup → List Bytes
attached u = keep (supports u.registry) u.established.negotiated_capabilities

-- Waiting for the writer: `none` when it panicked or did not finish in time.
abbrev pub writer_result : Option (Result (Unit {0}) Error) → Result (Unit {0}) Error
writer_result (some r) = r
writer_result none = ok tt

-- The writer's error is the session's only where the loop ended cleanly.
pub conclude : Result (Unit {0}) Error → Option (Result (Unit {0}) Error) → Result (Unit {0}) Error
conclude (ok x) flushed = writer_result flushed
conclude (err e) flushed = err e

-- `sequence += 1` of a u64: past the end it wraps, or stops a build that checks for it.
abbrev pub next_sequence : EnvelopeFactory → ℕ
next_sequence f = (f.sequence + 1) % 2 ^ 64

-- `build`: the message id comes from the system's random numbers, the time from its clock.
pub build : EnvelopeFactory → Bytes → ℕ → Body → EnvelopeFactory × Envelope
build f id at body = (
  record f { sequence = next_sequence f },
  record {
    protocol_version = f.protocol_version;
    message_id = id;
    sequence = next_sequence f;
    timestamp_unix_ms = at;
    correlation_id = [];
    body = some body;
  },
)

abbrev pub id_or : Option Bytes → Bytes → Bytes
id_or (some id) drawn = id
id_or none drawn = drawn

-- A request with the id that would be drawn for it, and the time.
pub record Draft : Type 0 where
  pub request : WriteRequest
  pub drawn : Bytes
  pub at : ℕ

-- One round of the writer.
pub write_one : EnvelopeFactory → Draft → EnvelopeFactory × Envelope
unfolding build
write_one f d =
    let (f', env) = build f d.drawn d.at d.request.body in
    (
      f',
      record env {
        message_id = id_or d.request.message_id d.drawn;
        correlation_id = d.request.correlation_id;
      },
    )

-- The frames that the writer puts on the wire.
pub write_all : EnvelopeFactory → List Draft → List Envelope
unfolding write_one
write_all f [] = []
write_all f (d ∷ ds) = let (f', env) = write_one f d in env ∷ write_all f' ds
