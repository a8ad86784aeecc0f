-- ===== src/Session/Loop/Once.antt =====
-- A frame counts once (session.rs, `run_session`).
use mathlib.Core.List.{append-nil, append_assoc}
use anyflow.Prelude.{
  ◌≤◌, ◌≡◌, refl, sym, ap, ◌∙◌, none, some, List, [], ◌∷◌, ◌++◌, Result, ok, err, arith, inl, inr,
  Option-cases,
}
use anyflow.Session.Wire.{Envelope}
use anyflow.Session.Handshake.{Violation, Error, protocol}
use anyflow.Session.Loop.{Setup, LoopState, incoming, Moment, on_envelope, on_incoming, step, run}
use anyflow.Session.Loop.Guarded.{envelope-stale, envelope-taken, step-sequence}

-- A run that goes on after its first step, and one that does not.
pub run-more :
    (u : Setup) (s : LoopState) (m : Moment) (ms : List Moment)
    → (step u s m m.stimulus).stop ≡ none
    → let now = step u s m m.stimulus in
      run u s (m ∷ ms)
      ≡ record (run u now.state ms) { actions = now.actions ++ (run u now.state ms).actions }
unfolding run
run-more u s m ms h = rw (h, run) refl

pub run-stopped :
    (u : Setup) (s : LoopState) (m : Moment) (ms : List Moment) (r : Result (Unit {0}) Error)
    → (step u s m m.stimulus).stop ≡ some r
    → let now = step u s m m.stimulus in
      run u s (m ∷ ms) ≡ record { state = now.state; actions = now.actions; stop = some r }
unfolding run
run-stopped u s m ms r h = rw (h, run) refl

-- A run that has not stopped can be taken further.
pub run-append :
    (u : Setup) (s : LoopState) (xs ys : List Moment)
    → (run u s xs).stop ≡ none
    → let first = run u s xs in
      let then_on = run u first.state ys in
      run u s (xs ++ ys) ≡ record then_on { actions = first.actions ++ then_on.actions }
unfolding run
run-append u s [] ys h = refl
run-append u s (m ∷ ms) ys h = elim (Option-cases (step u s m m.stimulus).stop) [
  | inr (r, e) ↦
      let n : some r ≡ none = ap (λ q. q.stop) (sym (run-stopped u s m ms r e)) ∙ h in absurd (cc)
  | inl e ↦
      let now = step u s m m.stimulus in
      let more = run-more u s m ms e in
      let rest : (run u now.state ms).stop ≡ none = ap (λ q. q.stop) (sym more) ∙ h in
      let ih = run-append u now.state ms ys rest in
      rw (run-more u s m (ms ++ ys) e, more, ih)
        (ap (λ l. record (run u (run u now.state ms).state ys) { actions = l })
          (sym (
            append_assoc now.actions (run u now.state ms).actions
              (run u (run u now.state ms).state ys).actions)))
]

pub run-sequence :
    (u : Setup) (s : LoopState) (ms : List Moment)
    → s.guard.last_sequence ≤ (run u s ms).state.guard.last_sequence
unfolding run
run-sequence u s [] = omega arith
run-sequence u s (m ∷ ms) = elim (Option-cases (step u s m m.stimulus).stop) [
  | inr (r, e) ↦ rw (e, run) (step-sequence u s m m.stimulus)
  | inl e ↦
      let now = step u s m m.stimulus in
      let first : s.guard.last_sequence ≤ now.state.guard.last_sequence =
        step-sequence u s m m.stimulus in
      let later : now.state.guard.last_sequence ≤ (run u now.state ms).state.guard.last_sequence =
        run-sequence u now.state ms in
      rw (e, run) (omega arith)
]

step-envelope :
    (u : Setup) (s : LoopState) (m : Moment) (env : Envelope)
    → m.stimulus ≡ incoming (some (ok env))
    → step u s m m.stimulus ≡ on_envelope u m s env
unfolding step on_incoming
step-envelope u s m env h = rw (h, step) refl

-- A frame that did not end the session ends it when it comes again, whatever came in between: with a
-- protocol error, and with nothing done for it or for anything after it.
pub frame_once :
    (u : Setup) (s : LoopState) (env : Envelope) (m again : Moment) (between rest : List Moment)
    → m.stimulus ≡ incoming (some (ok env))
    → again.stimulus ≡ incoming (some (ok env))
    → (run u s (m ∷ between)).stop ≡ none
    → let whole = run u s ((m ∷ between) ++ again ∷ rest) in
      (whole.actions ≡ (run u s (m ∷ between)).actions)
      × ((v : Violation) × (whole.stop ≡ some (err (protocol v))))
frame_once u s env m again between rest e f h = elim (Option-cases (step u s m m.stimulus).stop) [
  | inr (r, x) ↦
      let n : some r ≡ none = ap (λ q. q.stop) (sym (run-stopped u s m between r x)) ∙ h in
      absurd (cc)
  | inl x ↦
      let now = step u s m m.stimulus in
      let before = run u now.state between in
      let same = step-envelope u s m env e in
      let taken : (on_envelope u m s env).state.guard.last_sequence ≡ env.sequence =
        envelope-taken u m s env (ap (λ q. q.stop) (sym same) ∙ x) in
      let taken' : now.state.guard.last_sequence ≡ env.sequence =
        ap (λ q. q.state.guard.last_sequence) same ∙ taken in
      let kept : now.state.guard.last_sequence ≤ before.state.guard.last_sequence =
        run-sequence u now.state between in
      let first = run-more u s m between x in
      let here : (run u s (m ∷ between)).state ≡ before.state = ap (λ q. q.state) first in
      let here' : (run u s (m ∷ between)).state.guard.last_sequence
          ≡ before.state.guard.last_sequence =
        ap (λ q. q.guard.last_sequence) here in
      let t = (run u s (m ∷ between)).state in
      let (nothing, (v, stops)) = envelope-stale u again t env (omega arith) in
      let there = step-envelope u t again env f in
      let stops' = ap (λ q. q.stop) there ∙ stops in
      let tail = run-stopped u t again rest (err (protocol v)) stops' in
      let split = run-append u s (m ∷ between) (again ∷ rest) h in
      (
        ap (λ q. q.actions) split
            ∙ ap (λ l. (run u s (m ∷ between)).actions ++ l)
                (ap (λ q. q.actions) tail ∙ ap (λ q. q.actions) there ∙ nothing)
            ∙ append-nil (run u s (m ∷ between)).actions,
        (v, ap (λ q. q.stop) split ∙ ap (λ q. q.stop) tail),
      )
]
