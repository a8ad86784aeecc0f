-- ===== src/Session/Loop/Delivery.antt =====
-- What reaches a capability (session.rs, `run_session`).
use anyflow.Prelude.{
  ℕ, ◌≡◌, refl, ◌∙◌, Bool, true, false, ◌&&◌, Option, none, some, List, [], ◌∷◌, any, all, ◌==◌,
  Bytes, bytes_key, ◌=?◌, =?_refl, Result, ok, err, arith, Bool-cases, inl, inr, Option-cases,
  all-append,
}
use anyflow.Session.Wire.{Body, Envelope}
use anyflow.Session.Capability.{supports}
use anyflow.Session.Replay
use anyflow.Session.Replay.{ReplayGuard}
use anyflow.Session.Loop.{
  Setup, LoopState, Action, queued, delivered, measured, Stimulus, incoming, command, writer_joined,
  tick, exhausted, ping, send_capability, shutdown, Moment, on_pong, on_capability, on_body, heard,
  on_verdict, on_envelope, on_incoming, on_command, on_writer, on_tick, step, run,
}
use anyflow.Session.Loop.Once.{run-more}

abbrev pub body_carries : Bytes → Bytes → Option Body → Bool
body_carries id payload (some (Body.capability_message i p)) = i =? id && p =? payload
body_carries id payload _ = false

-- The peer sent this payload to this capability, in the version of the session.
abbrev pub carries : Setup → Bytes → Bytes → Stimulus → Bool
carries u id payload (incoming (some (ok env))) =
    env.protocol_version == u.established.protocol_version && body_carries id payload env.body
carries u id payload _ = false

abbrev pub is_permitted : Setup → List Moment → Action → Bool
is_permitted u ms (delivered id payload) =
    any (λ c. c =? id) u.established.negotiated_capabilities
    && supports u.registry id
    && any (λ (m : Moment). carries u id payload m.stimulus) ms
is_permitted u ms (queued w) = true
is_permitted u ms (measured t) = true

-- The same with the one stimulus whose body is `b`.
abbrev allowed : Setup → Option Body → Action → Bool
allowed u b (delivered id payload) =
    any (λ c. c =? id) u.established.negotiated_capabilities
    && supports u.registry id
    && body_carries id payload b
allowed u b (queued w) = true
allowed u b (measured t) = true

pong-allowed :
    (u : Setup) (m : Moment) (s : LoopState) (b : Option Body) (id : Bytes) (p : Option (Bytes × ℕ))
    → all (allowed u b) (on_pong m s id p).actions ≡ true
unfolding on_pong
pong-allowed u m s b id none = refl
pong-allowed u m s b id (some (mine, at)) = ground arith

body-allowed :
    (u : Setup) (m : Moment) (s : LoopState) (env : Envelope) (b : Option Body)
    → all (allowed u b) (on_body u m s env b).actions ≡ true
unfolding on_body on_capability
body-allowed u m s env (some (Body.ping payload)) = ground arith
body-allowed u m s env (some (Body.pong payload)) =
    pong-allowed u m s (some (Body.pong payload)) env.correlation_id s.pending_ping
body-allowed u m s env (some (Body.capability_message id payload)) =
    elim (Bool-cases (any (λ c. c =? id) u.established.negotiated_capabilities)) [
      | inr foreign ↦ rw foreign (ground arith)
      | inl common ↦ elim (Bool-cases (supports u.registry id)) [
        | inr unknown ↦ rw (common, unknown) refl
        | inl known ↦ rw (common, known, =?_refl id, =?_refl payload) (rw (common, known) refl)
      ]
    ]
body-allowed u m s env (some (Body.capability_announce ids)) = refl
body-allowed u m s env (some (Body.error e)) = ground arith
body-allowed u m s env (some (Body.hello x)) = refl
body-allowed u m s env (some (Body.hello_ack x)) = refl
body-allowed u m s env (some (Body.pair_request x)) = refl
body-allowed u m s env (some (Body.pair_response x)) = refl
body-allowed u m s env none = refl

verdict-allowed :
    (u : Setup) (m : Moment) (s : LoopState) (env : Envelope)
    (r : ReplayGuard × Result (Unit {0}) Replay.Error)
    → all (allowed u env.body) (on_verdict u m s env r).actions ≡ true
unfolding on_verdict
verdict-allowed u m s env (g, err v) = refl
verdict-allowed u m s env (g, ok x) = body-allowed u m (record s { guard = g }) env env.body

weaken :
    (u : Setup) (env : Envelope) (m : Moment) (ms : List Moment) (as' : List Action)
    → m.stimulus ≡ incoming (some (ok env))
    → (env.protocol_version == u.established.protocol_version) ≡ true
    → all (allowed u env.body) as' ≡ true
    → all (is_permitted u (m ∷ ms)) as' ≡ true
weaken u env m ms [] e v h = refl
weaken u env m ms (queued w ∷ as') e v h = weaken u env m ms as' e v h
weaken u env m ms (measured t ∷ as') e v h = weaken u env m ms as' e v h
weaken u env m ms (delivered id payload ∷ as') e v h =
    let ih : all (is_permitted u (m ∷ ms)) as' ≡ true = weaken u env m ms as' e v (ground arith) in
    rw (e, v) (ground arith)

later :
    (u : Setup) (m : Moment) (ms : List Moment) (as' : List Action)
    → all (is_permitted u ms) as' ≡ true
    → all (is_permitted u (m ∷ ms)) as' ≡ true
later u m ms [] h = refl
later u m ms (queued w ∷ as') h = later u m ms as' h
later u m ms (measured t ∷ as') h = later u m ms as' h
later u m ms (delivered id payload ∷ as') h =
    let ih : all (is_permitted u (m ∷ ms)) as' ≡ true = later u m ms as' (ground arith) in
    ground arith

step-permitted :
    (u : Setup) (s : LoopState) (m : Moment) (ms : List Moment) (st : Stimulus)
    → m.stimulus ≡ st
    → all (is_permitted u (m ∷ ms)) (step u s m st).actions ≡ true
unfolding step on_incoming on_envelope on_command on_writer on_tick
step-permitted u s m ms (incoming (some (ok env))) e =
    elim (Bool-cases (env.protocol_version == u.established.protocol_version)) [
      | inr other ↦ rw other refl
      | inl same ↦ rw same (
          weaken u env m ms (on_verdict u m (heard u m s) env (Replay.admit s.guard env)).actions e
            same (verdict-allowed u m (heard u m s) env (Replay.admit s.guard env)))
    ]
step-permitted u s m ms (incoming (some (err x))) e = ground arith
step-permitted u s m ms (incoming none) e = refl
step-permitted u s m ms (command shutdown) e = refl
step-permitted u s m ms (command (ping payload id)) e = ground arith
step-permitted u s m ms (command (send_capability id payload)) e = ground arith
step-permitted u s m ms (writer_joined (some (err x))) e = refl
step-permitted u s m ms (writer_joined (some (ok x))) e = refl
step-permitted u s m ms (writer_joined none) e = refl
step-permitted u s m ms (tick payload) e = ground arith
step-permitted u s m ms exhausted e = refl

-- Whatever reaches a capability in a run was sent to it by the peer, in the version of the session,
-- and the capability is one that was negotiated for the session and that this device has.
pub run-permitted :
    (u : Setup) (s : LoopState) (ms : List Moment)
    → all (is_permitted u ms) (run u s ms).actions ≡ true
unfolding run
run-permitted u s [] = refl
run-permitted u s (m ∷ ms) = elim (Option-cases (step u s m m.stimulus).stop) [
  | inr (r, e) ↦ rw (e, run) (step-permitted u s m ms m.stimulus refl)
  | inl e ↦
      let now = step u s m m.stimulus in
      rw (run-more u s m ms e) (
        all-append (is_permitted u (m ∷ ms)) now.actions (run u now.state ms).actions
        ∙ rw (step-permitted u s m ms m.stimulus refl)
            (later u m ms (run u now.state ms).actions (run-permitted u now.state ms)))
]
