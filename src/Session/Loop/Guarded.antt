-- ===== src/Session/Loop/Guarded.antt =====
-- What one step of the loop does to the guard (session.rs, `run_session`).
use anyflow.Prelude.{
  ℕ, ◌≤◌, ◌≡◌, refl, true, false, Option, none, some, [], ◌==◌, Bytes, bytes_key, Result, ok, err,
  is_ok, arith, Bool-cases, inl, inr,
}
use anyflow.Session.Wire.{Body, Envelope}
use anyflow.Session.Replay
use anyflow.Session.Replay.{ReplayGuard}
use anyflow.Session.Replay.Window.{admit-Admitted}
use anyflow.Session.Replay.History.{admit-sequence-le, stale_refused, sequence-passed}
use anyflow.Session.Handshake.{Violation, protocol}
use anyflow.Session.Loop.{
  Setup, LoopState, Stimulus, incoming, command, writer_joined, tick, exhausted, ping,
  send_capability, shutdown, Moment, on_pong, on_capability, on_body, heard, on_verdict,
  on_envelope, on_incoming, on_command, on_writer, on_tick, step,
}

pong-guard :
    (m : Moment) (s : LoopState) (id : Bytes) (p : Option (Bytes × ℕ))
    → (on_pong m s id p).state.guard ≡ s.guard
unfolding on_pong
pong-guard m s id none = refl
pong-guard m s id (some (mine, at)) = ground arith

body-guard :
    (u : Setup) (m : Moment) (s : LoopState) (env : Envelope) (b : Option Body)
    → (on_body u m s env b).state.guard ≡ s.guard
unfolding on_body on_capability
body-guard u m s env (some (Body.ping payload)) = ground arith
body-guard u m s env (some (Body.pong payload)) = pong-guard m s env.correlation_id s.pending_ping
body-guard u m s env (some (Body.capability_message id payload)) = ground arith
body-guard u m s env (some (Body.capability_announce ids)) = refl
body-guard u m s env (some (Body.error e)) = ground arith
body-guard u m s env (some (Body.hello x)) = refl
body-guard u m s env (some (Body.hello_ack x)) = refl
body-guard u m s env (some (Body.pair_request x)) = refl
body-guard u m s env (some (Body.pair_response x)) = refl
body-guard u m s env none = refl

verdict-guard :
    (u : Setup) (m : Moment) (s : LoopState) (env : Envelope)
    (r : ReplayGuard × Result (Unit {0}) Replay.Error)
    → (on_verdict u m s env r).state.guard ≡ r.0
unfolding on_verdict
verdict-guard u m s env (g, err v) = refl
verdict-guard u m s env (g, ok x) = body-guard u m (record s { guard = g }) env env.body

verdict-err :
    (u : Setup) (m : Moment) (s : LoopState) (env : Envelope)
    (r : ReplayGuard × Result (Unit {0}) Replay.Error)
    → is_ok r.1 ≡ false
    → ((on_verdict u m s env r).actions ≡ [])
      × ((v : Violation) × ((on_verdict u m s env r).stop ≡ some (err (protocol v))))
unfolding on_verdict
verdict-err u m s env (g, err v) h = (refl, (Violation.replay v, refl))
verdict-err u m s env (g, ok x) h = cc

-- A frame that is not newer than the last one ends the session and does nothing else.
pub envelope-stale :
    (u : Setup) (m : Moment) (s : LoopState) (env : Envelope)
    → env.sequence ≤ s.guard.last_sequence
    → ((on_envelope u m s env).actions ≡ [])
      × ((v : Violation) × ((on_envelope u m s env).stop ≡ some (err (protocol v))))
unfolding on_envelope
envelope-stale u m s env h =
    elim (Bool-cases (env.protocol_version == u.established.protocol_version)) [
      | inr other ↦ rw other (refl, (Violation.version_changed, refl))
      | inl same ↦ rw same (
          verdict-err u m (heard u m s) env (Replay.admit s.guard env)
            (stale_refused s.guard env h))
    ]

envelope-sequence :
    (u : Setup) (m : Moment) (s : LoopState) (env : Envelope)
    → s.guard.last_sequence ≤ (on_envelope u m s env).state.guard.last_sequence
unfolding on_envelope
envelope-sequence u m s env =
    elim (Bool-cases (env.protocol_version == u.established.protocol_version)) [
      | inr other ↦ rw other (omega arith)
      | inl same ↦
          rw (same, verdict-guard u m (heard u m s) env (Replay.admit s.guard env))
            (admit-sequence-le s.guard env)
    ]

verdict-taken :
    (u : Setup) (m : Moment) (s : LoopState) (env : Envelope)
    (r : ReplayGuard × Result (Unit {0}) Replay.Error)
    → (on_verdict u m s env r).stop ≡ none
    → is_ok r.1 ≡ true
unfolding on_verdict
verdict-taken u m s env (g, err v) h = cc
verdict-taken u m s env (g, ok x) h = refl

-- After a frame that did not end the session, the guard stands at its number.
pub envelope-taken :
    (u : Setup) (m : Moment) (s : LoopState) (env : Envelope)
    → (on_envelope u m s env).stop ≡ none
    → (on_envelope u m s env).state.guard.last_sequence ≡ env.sequence
unfolding on_envelope
envelope-taken u m s env h =
    elim (Bool-cases (env.protocol_version == u.established.protocol_version)) [
      | inr other ↦
          let e : some (err (protocol Violation.version_changed)) ≡ none = rw other at h in
          absurd (cc)
      | inl same ↦
          let taken =
            verdict-taken u m (heard u m s) env (Replay.admit s.guard env) (rw same at h) in
          rw (same, verdict-guard u m (heard u m s) env (Replay.admit s.guard env))
            ((sequence-passed s.guard env (admit-Admitted s.guard env)).1 taken)
    ]

pub step-sequence :
    (u : Setup) (s : LoopState) (m : Moment) (st : Stimulus)
    → s.guard.last_sequence ≤ (step u s m st).state.guard.last_sequence
unfolding step on_incoming on_command on_writer on_tick
step-sequence u s m (incoming (some (ok env))) = envelope-sequence u m s env
step-sequence u s m (incoming (some (err e))) = ground arith
step-sequence u s m (incoming none) = omega arith
step-sequence u s m (command shutdown) = omega arith
step-sequence u s m (command (ping payload id)) = ground arith
step-sequence u s m (command (send_capability id payload)) = ground arith
step-sequence u s m (writer_joined (some (err e))) = omega arith
step-sequence u s m (writer_joined (some (ok x))) = omega arith
step-sequence u s m (writer_joined none) = omega arith
step-sequence u s m (tick payload) = ground arith
step-sequence u s m exhausted = omega arith
