-- ===== src/Files/Manager/Streams/Verified.antt =====
-- What is given a name in the download directory (lib.rs, `run_receive`).
use anyflow.Prelude.{
  ◌≡◌, refl, sym, List, ◌∙◌, ap, Bool, true, false, Option, none, some, any, any-append, Bytes,
  bytes_key, ◌=?◌, =?_iff, Bool-cases, Option-cases, inl, inr, Result, ok, err, arith,
}
use anyflow.Collections.BTreeMap.{get-modify}
use anyflow.Files.Filename.{Text}
use anyflow.Files.Transfer.{
  TransferId, TransferState, FailureReason, storage, integrity, verifying, transferring,
  can_transition_to, is_terminal,
}
use anyflow.Files.Manager.{
  Action, promotes, TransferRecord, Manager, Env, find, change, removal_of, clean_up_temp,
  transition, moved, tells, ending, fail,
}
use anyflow.Files.Manager.Streams.{StreamPlan, without_stream, run_stream, run_receive}
use anyflow.Session.Pairing.{Crypto}
use anyflow.Files.Manager.Events.{Event, run}
use anyflow.Files.Manager.Events.Kept.{all_keep, run-Evolves}

unfoldable pub is_promotion : Action → Bool
is_promotion (promotes temp name) = true
is_promotion _ = false

removal-quiet : (o : Option TransferRecord) → any is_promotion (removal_of o) ≡ false
unfolding is_promotion
removal-quiet none = refl
removal-quiet (some r) = elim (Option-cases r.temp) [
  | inl e ↦ rw e refl
  | inr (path, e) ↦ rw e refl
]

transition-quiet :
    (e : Env) (id : TransferId) (next : TransferState) (failure : Option FailureReason)
    (m : Manager)
    → any is_promotion (transition e id next failure m).1.1 ≡ false
unfolding transition clean_up_temp
transition-quiet e id next failure m = elim (Option-cases (find m id)) [
  | inl gone ↦ rw (transition, gone) refl
  | inr (r, found) ↦ elim (Bool-cases (can_transition_to r.state next)) [
    | inr refused ↦ rw (transition, found, refused) refl
    | inl may ↦ elim (Bool-cases (is_terminal next)) [
      | inl last ↦
          rw (transition, found, may, last)
            (removal-quiet (find (change id (moved m.config e next failure) m) id))
      | inr more ↦ rw (transition, found, may, more) refl
    ]
  ]
]

tells-quiet :
    (id : TransferId) (reason : FailureReason) (o : Option TransferRecord)
    → any is_promotion (tells id reason o) ≡ false
unfolding is_promotion
tells-quiet id reason none = refl
tells-quiet id reason (some r) = refl

fail-quiet :
    (e : Env) (id : TransferId) (reason : FailureReason) (m : Manager)
    → any is_promotion (fail e id reason m).1 ≡ false
unfolding fail
fail-quiet e id reason m =
    let q = transition-quiet e id (ending reason) (some reason) m in
    elim (Bool-cases (transition e id (ending reason) (some reason) m).0) [
      | inr not_moved ↦ rw (fail, not_moved) q
      | inl has_moved ↦
          rw (fail, has_moved)
            (any-append is_promotion (transition e id (ending reason) (some reason) m).1.1
                (tells id reason (find m id))
              ∙ rw (q, tells-quiet id reason (find m id)) refl)
    ]

only_from_transferring :
    (s : TransferState) → can_transition_to s verifying ≡ true → s ≡ transferring
unfolding can_transition_to is_terminal
only_from_transferring s h = ground arith

moves_from :
    (e : Env) (id : TransferId) (m : Manager)
    → (transition e id verifying none m).0 ≡ true
    → (r : TransferRecord) × ((find m id ≡ some r) × (r.state ≡ transferring))
unfolding transition
moves_from e id m h = elim (Option-cases (find m id)) [
  | inl gone ↦ absurd (ground arith)
  | inr (r, found) ↦ elim (Bool-cases (can_transition_to r.state verifying)) [
    | inr refused ↦ absurd (ground arith)
    | inl may ↦ (r, (found, only_from_transferring r.state may))
  ]
]

before :
    (id : TransferId) (m : Manager) (r : TransferRecord)
    → find (change id without_stream m) id ≡ some r
    → (q : TransferRecord) × ((find m id ≡ some q) × (q.state ≡ r.state))
unfolding change
before id m r h = elim (Option-cases (find m id)) [
  | inl gone ↦ absurd (ground (arith, get-modify id.bytes id.bytes without_stream m.transfers))
  | inr (q, found) ↦ (
    q,
    (
      found,
      ground (
        arith,
        get-modify id.bytes id.bytes without_stream m.transfers,
        =?_iff id.bytes id.bytes,
      ),
    ),
  )
]

-- The same of the plan that `run_stream` has made before.
promoted-plan :
    (e : Env) (id : TransferId) (plan : StreamPlan) (temp : Bytes)
    (copied : Result Bytes FailureReason) (syncs : Bool) (promoted : Option Text) (m : Manager)
    → any is_promotion (run_receive e id plan temp copied syncs promoted m).1 ≡ true
    → (copied ≡ ok plan.sha256)
      × ((syncs ≡ true)
          × ((r : TransferRecord) × ((find m id ≡ some r) × (r.state ≡ transferring))))
unfolding run_receive
promoted-plan e id plan temp (err reason) syncs promoted m h =
    absurd (ground (arith, fail-quiet e id reason (change id without_stream m)))
promoted-plan e id plan temp (ok digest) false promoted m h =
    absurd (ground (arith, fail-quiet e id storage (change id without_stream m)))
promoted-plan e id plan temp (ok digest) true promoted m h =
    let m' = change id without_stream m in
    let m'' = (transition e id verifying none m').1.0 in
    elim (Bool-cases (transition e id verifying none m').0) [
      | inr late ↦ absurd (ground (arith, transition-quiet e id verifying none m'))
      | inl goes ↦ elim (Bool-cases (digest =? plan.sha256)) [
        | inr bad ↦ absurd (ground (arith, fail-quiet e id integrity m''))
        | inl good ↦
            let (r, (found, runs)) = moves_from e id m' goes in
            let (q, (there, same)) = before id m r found in
            (ap ok ((=?_iff digest plan.sha256).0 good), (refl, (q, (there, same ∙ runs))))
      ]
    ]

plan_of :
    (id : TransferId) (m : Manager) (plan : StreamPlan)
    → run_stream id m ≡ some plan
    → (r : TransferRecord) × ((find m id ≡ some r) × (plan.sha256 ≡ r.sha256))
unfolding run_stream
plan_of id m plan h = elim (Option-cases (find m id)) [
  | inl gone ↦ absurd (ground arith)
  | inr (r, found) ↦ (r, (found, ground arith))
]

-- At the end of its copy, a received file is promoted to its final name only while the transfer is
-- under way, where the file was flushed and the copy gave the digest that the transfer's record has
-- named ever since the stream's plan was made from it, whatever has happened to the manager in
-- between, as long as each id drawn for an offer was new and no record was forgotten.
pub promoted-verified :
    (c : Crypto) (events : List (Env × Event)) (before : Manager) (e : Env) (id : TransferId)
    (plan : StreamPlan) (temp : Bytes) (copied : Result Bytes FailureReason) (syncs : Bool)
    (promoted : Option Text)
    → run_stream id before ≡ some plan
    → all_keep c events before ≡ true
    → any is_promotion (run_receive e id plan temp copied syncs promoted (run c events before)).1
      ≡ true
    → (syncs ≡ true)
      × ((q r : TransferRecord) × ((find before id ≡ some q)
            × ((find (run c events before) id ≡ some r)
                × ((r.state ≡ transferring) × ((copied ≡ ok q.sha256) × (copied ≡ ok r.sha256))))))
promoted-verified c events before e id plan temp copied syncs promoted made kept h =
    let (q, (had, named)) = plan_of id before plan made in
    let (r, (has, g)) = run-Evolves c events before kept id.bytes q had in
    let (same, (synced, (x, (found, runs)))) =
      promoted-plan e id plan temp copied syncs promoted (run c events before) h in
    let it : x ≡ r = cc in
    (
      synced,
      (
        q,
        r,
        (
          had,
          (
            has,
            (
              ap (λ z. z.state) (sym it) ∙ runs,
              (same ∙ ap ok named, same ∙ ap ok (named ∙ sym g.same_digest)),
            ),
          ),
        ),
      ),
    )
