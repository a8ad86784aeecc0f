-- ===== src/Session/Replay/History.antt =====
-- The guard of session.rs over the envelopes of a connection.
use anyflow.Prelude.{
  ℕ, suc, ◌-◌, ◌≤◌, ◌<◌, ◌≡◌, ◌↔◌, sym, ◌∙◌, refl, ap, true, false, List, [], ◌∷◌, ◌++◌, length,
  length-append, length-drop, any-append, ◌=?◌, if◌then◌else◌, drop, drop-append, tail, tail-drop,
  ltb, Bytes, bytes_key, Result, is_ok, arith, Bool-cases, inl, inr,
}
use anyflow.Collections.BTreeMap
use anyflow.Session.Wire.{Envelope}
use anyflow.Session.Replay.{Error, ReplayGuard, dedup_window, new, pop_old, admit}
use anyflow.Session.Replay.Window.{
  IsValid, new-IsValid, admit-IsValid, is_in, grown, Admitted, refused, passed, admit-Admitted,
}

unfoldable pub run : ReplayGuard → List Envelope → ReplayGuard
run g [] = g
run g (e ∷ es) = run (admit g e).0 es

-- The ids of the envelopes that were let through, oldest first, behind those of `before`.
unfoldable pub accepted : List Bytes → ReplayGuard → List Envelope → List Bytes
accepted before g [] = before
accepted before g (e ∷ es) =
    accepted (if is_ok (admit g e).1 then before ++ e.message_id ∷ [] else before) (admit g e).0 es

abbrev pub recent : ℕ → List Bytes → List Bytes
recent n ids = drop (length ids - n) ids

abbrev trim : ℕ → List Bytes → List Bytes
trim n ids = if ltb n (length ids) then tail ids else ids

pop-trim :
    (g : ReplayGuard) (q : List Bytes) (id : Bytes)
    → (pop_old g (q ++ id ∷ [])).order ≡ trim dedup_window (q ++ id ∷ [])
pop-trim g [] id = ground arith
pop-trim g (x ∷ q) id = ground arith

recent-push :
    (n : ℕ) (ids : List Bytes) (id : Bytes)
    → recent n (ids ++ id ∷ []) ≡ trim n (recent n ids ++ id ∷ [])
recent-push n ids id = elim (Bool-cases (ltb (length ids) n)) [
  | inl short ↦
      let none_yet : length ids - n ≡ 0 = ground arith in
      let none_after : length (ids ++ id ∷ []) - n ≡ 0 =
        ground (arith, length-append ids (id ∷ [])) in
      rw (none_yet, none_after) (ground (arith, length-append ids (id ∷ [])))
  | inr long ↦
      let more : length (ids ++ id ∷ []) - n ≡ suc (length ids - n) =
        ground (arith, length-append ids (id ∷ [])) in
      let over : ltb n (length (drop (length ids - n) ids ++ id ∷ [])) ≡ true = ground (
        arith,
        length-append (drop (length ids - n) ids) (id ∷ []),
        length-drop (length ids - n) ids,
      ) in
      rw (more, over)
        (sym (tail-drop (length ids - n) (ids ++ id ∷ []))
          ∙ ap tail (drop-append (length ids - n) ids (id ∷ []) (omega arith)))
]

step-order :
    (g : ReplayGuard) (e : Envelope) (before : List Bytes)
    {r : ReplayGuard × Result (Unit {0}) Error}
    → g.order ≡ recent dedup_window before
    → Admitted g e r
    → r.0.order ≡ recent dedup_window (if is_ok r.1 then before ++ e.message_id ∷ [] else before)
step-order g e before o (refused x p) = rw p o
step-order g e before o (passed w s d p) = rw p (
    pop-trim _ g.order e.message_id
    ∙ ap (λ q. trim dedup_window (q ++ e.message_id ∷ [])) o
    ∙ sym (recent-push dedup_window before e.message_id))

order-run :
    (g : ReplayGuard) (es : List Envelope) (before : List Bytes)
    → g.order ≡ recent dedup_window before
    → (run g es).order ≡ recent dedup_window (accepted before g es)
unfolding run accepted
order-run g [] before o = o
order-run g (e ∷ es) before o =
    order-run (admit g e).0 es _ (step-order g e before o (admit-Admitted g e))

run-IsValid : (g : ReplayGuard) (es : List Envelope) → IsValid g → IsValid (run g es)
unfolding run
run-IsValid g [] v = v
run-IsValid g (e ∷ es) v = run-IsValid (admit g e).0 es (admit-IsValid g e v)

-- The number of the last envelope that was let through, `before` where there is none.
unfoldable pub last_accepted : ℕ → ReplayGuard → List Envelope → ℕ
last_accepted before g [] = before
last_accepted before g (e ∷ es) =
    last_accepted (if is_ok (admit g e).1 then e.sequence else before) (admit g e).0 es

abbrev pub Passes : ℕ → Envelope → List Bytes → Type 0
Passes last e window =
    (length e.message_id ≡ 16) × (last < e.sequence) × (is_in e.message_id window ≡ false)

pub admit_iff :
    (g : ReplayGuard) (e : Envelope)
    → IsValid g
    → (is_ok (admit g e).1 ≡ true) ↔ Passes g.last_sequence e g.order
unfolding admit
admit_iff g e v =
    (λ h. ground (arith, v.agree e.message_id), λ h. ground (arith, v.agree e.message_id))

pop-sequence : (g : ReplayGuard) (q : List Bytes) → (pop_old g q).last_sequence ≡ g.last_sequence
pop-sequence g [] = refl
pop-sequence g (x ∷ q) = ground arith

step-sequence :
    (g : ReplayGuard) (e : Envelope) {r : ReplayGuard × Result (Unit {0}) Error}
    → Admitted g e r
    → r.0.last_sequence ≡ (if is_ok r.1 then e.sequence else g.last_sequence)
step-sequence g e (refused x p) = rw p refl
step-sequence g e (passed w s d p) = rw p (
    pop-sequence
      (record {
        last_sequence = e.sequence;
        seen = BTreeMap.insert e.message_id tt g.seen;
        order = g.order;
      })
      (g.order ++ e.message_id ∷ []))

sequence-run :
    (g : ReplayGuard) (es : List Envelope) (before : ℕ)
    → g.last_sequence ≡ before
    → (run g es).last_sequence ≡ last_accepted before g es
unfolding run last_accepted
sequence-run g [] before same = same
sequence-run g (e ∷ es) before same = sequence-run (admit g e).0 es _ (
    step-sequence g e (admit-Admitted g e)
    ∙ ap (λ n. if is_ok (admit g e).1 then e.sequence else n) same)

-- On a connection, an envelope is let through exactly when its id has 16 bytes, its sequence number
-- is past that of the last one let through, or past 0 where there is none, and its id is not among
-- the last 1024 let through.
pub admit-run_iff :
    (es : List Envelope) (e : Envelope)
    → (is_ok (admit (run new es) e).1 ≡ true)
      ↔ Passes (last_accepted 0 new es) e (recent dedup_window (accepted [] new es))
unfolding new
admit-run_iff es e =
    rw (← order-run new es [] refl, ← sequence-run new es 0 refl)
      (admit_iff (run new es) e (run-IsValid new es new-IsValid))

pub sequence-passed :
    (g : ReplayGuard) (e : Envelope) {r : ReplayGuard × Result (Unit {0}) Error}
    → Admitted g e r
    → (g.last_sequence ≤ r.0.last_sequence) × (is_ok r.1 ≡ true → r.0.last_sequence ≡ e.sequence)
sequence-passed g e (refused x p) = rw p (omega arith, λ h. cc)
sequence-passed g e (passed w s d p) =
    let same =
      pop-sequence
        (record {
          last_sequence = e.sequence;
          seen = BTreeMap.insert e.message_id tt g.seen;
          order = g.order;
        })
        (g.order ++ e.message_id ∷ []) in
    rw p (omega (arith, same), λ h. same)

pub admit-sequence-le :
    (g : ReplayGuard) (e : Envelope) → g.last_sequence ≤ (admit g e).0.last_sequence
admit-sequence-le g e = (sequence-passed g e (admit-Admitted g e)).0

run-sequence-le :
    (g : ReplayGuard) (es : List Envelope) → g.last_sequence ≤ (run g es).last_sequence
unfolding run
run-sequence-le g [] = omega arith
run-sequence-le g (e ∷ es) = omega (arith, admit-sequence-le g e, run-sequence-le (admit g e).0 es)

pub stale_refused :
    (g : ReplayGuard) (e : Envelope) → e.sequence ≤ g.last_sequence → is_ok (admit g e).1 ≡ false
unfolding admit
stale_refused g e h = ground arith

-- An envelope that was let through is refused when it comes again, whatever came between.
pub readmit_refused :
    (g : ReplayGuard) (e : Envelope) (between : List Envelope)
    → is_ok (admit g e).1 ≡ true
    → is_ok (admit (run (admit g e).0 between) e).1 ≡ false
readmit_refused g e between h = stale_refused (run (admit g e).0 between) e (
    omega (
      arith,
      (sequence-passed g e (admit-Admitted g e)).1 h,
      run-sequence-le (admit g e).0 between,
    ))

pub sequence-of :
    (g : ReplayGuard) (e : Envelope)
    → is_ok (admit g e).1 ≡ true
    → (admit g e).0.last_sequence ≡ e.sequence
sequence-of g e = (sequence-passed g e (admit-Admitted g e)).1

pop-in :
    (g : ReplayGuard) (q : List Bytes) (id x : Bytes)
    → is_in x (pop_old g (q ++ id ∷ [])).order ≡ true
    → is_in x (q ++ id ∷ []) ≡ true
pop-in g [] id x h = ground arith
pop-in g (y ∷ q) id x h = ground arith

order-in :
    (g : ReplayGuard) (e : Envelope) {r : ReplayGuard × Result (Unit {0}) Error}
    → Admitted g e r
    → (x : Bytes) → is_in x r.0.order ≡ true
    → is_in x (g.order ++ e.message_id ∷ []) ≡ true
order-in g e (refused y p) x h =
    let old : is_in x g.order ≡ true = rw p at h in
    ground (arith, any-append (λ z. x =? z) g.order (e.message_id ∷ []))
order-in g e (passed w s d p) x h = pop-in (grown g e) g.order e.message_id x (rw p at h)

-- The ids that the guard remembers after an envelope are those before it, and the envelope's.
pub admit-order-in :
    (g : ReplayGuard) (e : Envelope) (x : Bytes)
    → is_in x (admit g e).0.order ≡ true
    → is_in x (g.order ++ e.message_id ∷ []) ≡ true
admit-order-in g e = order-in g e (admit-Admitted g e)
