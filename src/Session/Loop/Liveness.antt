-- ===== src/Session/Loop/Liveness.antt =====
-- A peer that has gone (session.rs, the liveness branch of `run_session`).
use anyflow.Prelude.{
  ℕ, ◌+◌, ◌≡◌, refl, ap, Bool, true, false, ◌&&◌, none, some, List, [], ◌∷◌, any, leb, ok, err,
  is_some, arith, Bool-cases, inl, inr, Option-cases,
}
use anyflow.Session.Loop.{
  Setup, LoopState, Stimulus, incoming, command, writer_joined, tick, exhausted, ping,
  send_capability, shutdown, Moment, on_command, on_writer, on_tick, step, run, liveness_dead_after,
}
use anyflow.Session.Loop.Once.{run-more, run-stopped}

abbrev pub is_incoming : Stimulus → Bool
is_incoming (incoming r) = true
is_incoming _ = false

abbrev pub is_tick : Stimulus → Bool
is_tick (tick payload) = true
is_tick _ = false

-- A look at the clock that finds three minutes of silence since `t`.
abbrev pub finds_silence : ℕ → Moment → Bool
finds_silence t m = is_tick m.stimulus && leb (t + liveness_dead_after) m.now

step-inbound :
    (u : Setup) (s : LoopState) (m : Moment) (st : Stimulus)
    → is_incoming st ≡ false
    → (step u s m st).state.last_inbound ≡ s.last_inbound
unfolding step on_command on_writer on_tick
step-inbound u s m (incoming r) h = cc
step-inbound u s m (command shutdown) h = refl
step-inbound u s m (command (ping payload id)) h = ground arith
step-inbound u s m (command (send_capability id payload)) h = ground arith
step-inbound u s m (writer_joined (some (err e))) h = refl
step-inbound u s m (writer_joined (some (ok x))) h = refl
step-inbound u s m (writer_joined none) h = refl
step-inbound u s m (tick payload) h = ground arith
step-inbound u s m exhausted h = refl

step-dead :
    (u : Setup) (s : LoopState) (m : Moment) (st : Stimulus)
    → is_tick st ≡ true
    → leb (s.last_inbound + liveness_dead_after) m.now ≡ true
    → is_some (step u s m st).stop ≡ true
unfolding step on_tick
step-dead u s m (tick payload) h d = ground arith
step-dead u s m (incoming r) h d = cc
step-dead u s m (command c) h d = cc
step-dead u s m (writer_joined r) h d = cc
step-dead u s m exhausted h d = cc

-- A session whose peer has gone ends. When nothing comes in, it is over by the first look at the
-- clock that finds three minutes of silence, whatever commands come in the meantime.
pub silent_run_ends :
    (u : Setup) (s : LoopState) (ms : List Moment)
    → any (λ (m : Moment). is_incoming m.stimulus) ms ≡ false
    → any (finds_silence s.last_inbound) ms ≡ true
    → is_some (run u s ms).stop ≡ true
unfolding run
silent_run_ends u s [] q h = cc
silent_run_ends u s (m ∷ ms) q h = elim (Option-cases (step u s m m.stimulus).stop) [
  | inr (r, e) ↦ rw (run-stopped u s m ms r e) refl
  | inl e ↦ elim (Bool-cases (finds_silence s.last_inbound m)) [
    | inl dead ↦
        let over = step-dead u s m m.stimulus (ground arith) (ground arith) in
        let none_yet : is_some (step u s m m.stimulus).stop ≡ false = ap is_some e in absurd (cc)
    | inr alive ↦
        let now = step u s m m.stimulus in
        let same : now.state.last_inbound ≡ s.last_inbound =
          step-inbound u s m m.stimulus (ground arith) in
        let rest : any (finds_silence now.state.last_inbound) ms ≡ true = rw same (ground arith) in
        rw (run-more u s m ms e) (silent_run_ends u now.state ms (ground arith) rest)
  ]
]
