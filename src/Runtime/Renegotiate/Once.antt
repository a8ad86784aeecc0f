-- ===== src/Runtime/Renegotiate/Once.antt =====
-- A session is asked to end at most once (renegotiate.rs).
use anyflow.Prelude.{
  ℕ, ◌+◌, ◌≤◌, ◌≡◌, refl, ap, ◌∙◌, Bool, true, false, not, ◌&&◌, ◌||◌, none, some, List, [], ◌∷◌,
  all, ◌==◌, if◌then◌else◌, Bytes, bytes_key, ◌=?◌, =?_iff, arith, Bool-cases, inl, inr,
}
use anyflow.Collections.BTreeMap
use anyflow.Collections.BTreeMap.{BTreeMap, get-insert, get-remove}
use anyflow.Runtime.Renegotiate.{
  Decision, withdrawn, no_session, already_negotiated, already_requested, reconnect, is_reconnect,
  LiveSession, decide, Renegotiation, noted, on_grant_changed, clear, Event, grant_changes, clears,
  step,
}

-- The event asks session `k` of this peer to end.
abbrev pub is_request : Bytes → ℕ → Renegotiation → Event → Bool
is_request peer k r (grant_changes p capability granted (some session)) =
    p =? peer
    && session.id == k
    && is_reconnect (decide granted capability (some session) (BTreeMap.get p r.requested))
is_request peer k r _ = false

unfoldable pub requests : Bytes → ℕ → Renegotiation → List Event → ℕ
requests peer k r [] = 0
requests peer k r (e ∷ es) =
    (if is_request peer k r e then 1 else 0) + requests peer k (step r e).0 es

-- The peer is not forgotten, and has no other live session.
abbrev pub stays : Bytes → ℕ → Event → Bool
stays peer k (grant_changes p capability granted (some session)) =
    not (p =? peer) || session.id == k
stays peer k (grant_changes p capability granted none) = true
stays peer k (clears p) = not (p =? peer)

noted-get :
    (r : Renegotiation) (p peer : Bytes) (d : Decision) (session : LiveSession)
    → BTreeMap.get peer (noted r p d (some session)).requested
      ≡ (if is_reconnect d && peer =? p then some session.id else BTreeMap.get peer r.requested)
unfolding noted is_reconnect
noted-get r p peer reconnect session = get-insert p peer session.id r.requested
noted-get r p peer withdrawn session = refl
noted-get r p peer no_session session = refl
noted-get r p peer already_negotiated session = refl
noted-get r p peer already_requested session = refl

noted-none : (r : Renegotiation) (p : Bytes) (d : Decision) → noted r p d none ≡ r
unfolding noted
noted-none r p reconnect = refl
noted-none r p withdrawn = refl
noted-none r p no_session = refl
noted-none r p already_negotiated = refl
noted-none r p already_requested = refl

step-remembers :
    (r : Renegotiation) (peer : Bytes) (k : ℕ) (e : Event)
    → stays peer k e ≡ true
    → BTreeMap.get peer r.requested ≡ some k
    → BTreeMap.get peer (step r e).0.requested ≡ some k
unfolding step on_grant_changed clear
step-remembers r peer k (clears p) s h =
    ground (arith, get-remove p peer r.requested, =?_iff p peer, =?_iff peer p)
step-remembers r peer k (grant_changes p capability granted none) s h =
    rw (noted-none r p (decide granted capability none (BTreeMap.get p r.requested))) h
step-remembers r peer k (grant_changes p capability granted (some session)) s h =
    let d = decide granted capability (some session) (BTreeMap.get p r.requested) in
    ground (arith, noted-get r p peer d session, =?_iff p peer, =?_iff peer p)

decide-requested :
    (granted : Bool) (capability : Bytes) (session : LiveSession) (k : ℕ)
    → (k == session.id) ≡ true
    → is_reconnect (decide granted capability (some session) (some k)) ≡ false
unfolding decide is_reconnect
decide-requested granted capability session k h = ground arith

request-again :
    (r : Renegotiation) (peer : Bytes) (k : ℕ) (e : Event)
    → BTreeMap.get peer r.requested ≡ some k
    → is_request peer k r e ≡ false
request-again r peer k (clears p) h = refl
request-again r peer k (grant_changes p capability granted none) h = refl
request-again r peer k (grant_changes p capability granted (some session)) h =
    elim (Bool-cases (p =? peer)) [
      | inr other ↦ rw other refl
      | inl same ↦ elim (Bool-cases (session.id == k)) [
        | inr fresh ↦ rw (same, fresh) refl
        | inl live ↦
            let found : BTreeMap.get p r.requested ≡ some k =
              ap (λ x. BTreeMap.get x r.requested) ((=?_iff p peer).0 same) ∙ h in
            rw (same, live, found, decide-requested granted capability session k (ground arith))
              refl
      ]
    ]

no_more_requests :
    (es : List Event) (r : Renegotiation) (peer : Bytes) (k : ℕ)
    → all (stays peer k) es ≡ true
    → BTreeMap.get peer r.requested ≡ some k
    → requests peer k r es ≡ 0
unfolding requests
no_more_requests [] r peer k s h = refl
no_more_requests (e ∷ es) r peer k s h = rw (request-again r peer k e h) (
    omega (
      arith,
      no_more_requests es (step r e).0 peer k (ground arith)
          (step-remembers r peer k e (ground arith) h),
    ))

request-noted :
    (r : Renegotiation) (peer : Bytes) (k : ℕ) (e : Event)
    → is_request peer k r e ≡ true
    → BTreeMap.get peer (step r e).0.requested ≡ some k
unfolding step on_grant_changed
request-noted r peer k (clears p) h = cc
request-noted r peer k (grant_changes p capability granted none) h = cc
request-noted r peer k (grant_changes p capability granted (some session)) h =
    let d = decide granted capability (some session) (BTreeMap.get p r.requested) in
    ground (arith, noted-get r p peer d session, =?_iff p peer, =?_iff peer p)

-- Until the peer connects anew or is forgotten, its session is asked to end at most once, however
-- often, for whatever capabilities and between whatever other peers' changes its grants change.
pub requests-at_most_once :
    (es : List Event) (r : Renegotiation) (peer : Bytes) (k : ℕ)
    → all (stays peer k) es ≡ true
    → requests peer k r es ≤ 1
unfolding requests
requests-at_most_once [] r peer k s = omega arith
requests-at_most_once (e ∷ es) r peer k s = elim (Bool-cases (is_request peer k r e)) [
  | inl asked ↦ rw asked (
      omega (
        arith,
        no_more_requests es (step r e).0 peer k (ground arith) (request-noted r peer k e asked),
      ))
  | inr not_asked ↦
      rw not_asked (omega (arith, requests-at_most_once es (step r e).0 peer k (ground arith)))
]
