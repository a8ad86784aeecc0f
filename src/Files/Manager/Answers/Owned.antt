-- ===== src/Files/Manager/Answers/Owned.antt =====
-- A peer steers its own transfers (lib.rs, `owned_active` and `belongs_to`).
use anyflow.Prelude.{
  ◌≡◌, refl, sym, ◌∙◌, ap, subst, true, false, Option, none, some, Bytes, bytes_key, ◌=?◌, =?_iff,
  Bool-cases, Option-cases, inl, inr, is_some, arith,
}
use anyflow.Collections.BTreeMap
use anyflow.Collections.BTreeMap.{get-modify, get-insert}
use anyflow.Files.Auth.{StreamChallenge, challenge_from_bytes}
use anyflow.Files.Transfer.{
  TransferId, TransferState, FailureReason, from_bytes, transferring, completed, failed, cancelled,
  bad_metadata, is_terminal, can_transition_to, WireReason, reason_from_proto,
}
use anyflow.Files.Manager.{
  Fingerprint, Session, Direction, sending, receiving, Body, TransferRecord, Manager, Env, find,
  change, moved, without_temp, clean_up_temp, transition, ending, fail,
}
use anyflow.Files.Manager.Answers.{
  owned_active, belongs_to, with_challenge, accept_as_acceptor, accept_as_dialer, on_accept,
  ready_as_dialer, on_ready, on_peer_ended, on_complete, handle_control,
}
use anyflow.Files.Manager.Answers.Kept.{role-cases}
use anyflow.Files.Manager.Offers.Kept.{on_offer-inserts}

abbrev Leaves : Fingerprint → Manager → Manager → Type 0
Leaves peer m m' =
    (id : Bytes) (r : TransferRecord)
    → BTreeMap.get id m.transfers ≡ some r
    → (r.peer =? peer) ≡ false
    → BTreeMap.get id m'.transfers ≡ some r

abbrev Owns : Fingerprint → TransferId → Manager → Type 0
Owns peer id m = (q : TransferRecord) → find m id ≡ some q → (q.peer =? peer) ≡ true

Leaves-refl : (peer : Fingerprint) (m : Manager) → Leaves peer m m
Leaves-refl peer m id r e other = e

change-Leaves :
    (peer : Fingerprint) (id : TransferId) (f : TransferRecord → TransferRecord) (m : Manager)
    → Owns peer id m
    → Leaves peer m (change id f m)
unfolding change
change-Leaves peer id f m own j r e other = elim (Bool-cases (j =? id.bytes)) [
  | inr apart ↦ rw (get-modify id.bytes j f m.transfers, apart) e
  | inl same ↦
      let mine =
        own r (subst (λ k. BTreeMap.get k m.transfers ≡ some r) ((=?_iff j id.bytes).0 same) e) in
      absurd (ground arith)
]

change-Owns :
    (peer : Fingerprint) (id : TransferId) (f : TransferRecord → TransferRecord) (m : Manager)
    → ((r : TransferRecord) → (f r).peer ≡ r.peer)
    → Owns peer id m
    → Owns peer id (change id f m)
unfolding change
change-Owns peer id f m same own q e = elim (Option-cases (find m id)) [
  | inl gone ↦ absurd (ground (arith, get-modify id.bytes id.bytes f m.transfers))
  | inr (r, there) ↦
      let it : f r ≡ q =
        ground (arith, get-modify id.bytes id.bytes f m.transfers, =?_iff id.bytes id.bytes) in
      ap (λ (p : Fingerprint). p =? peer) (sym (ap (λ (x : TransferRecord). x.peer) it) ∙ same r)
      ∙ own r there
]

change-again :
    (peer : Fingerprint) (id : TransferId) (f g : TransferRecord → TransferRecord) (m : Manager)
    → ((r : TransferRecord) → (f r).peer ≡ r.peer)
    → Owns peer id m
    → Leaves peer m (change id g (change id f m))
change-again peer id f g m same own j r e other =
    change-Leaves peer id g (change id f m) (change-Owns peer id f m same own) j r
      (change-Leaves peer id f m own j r e other) other

transition-Leaves :
    (peer : Fingerprint) (e : Env) (id : TransferId) (next : TransferState)
    (failure : Option FailureReason) (m : Manager)
    → Owns peer id m
    → Leaves peer m (transition e id next failure m).1.0
unfolding transition clean_up_temp moved
transition-Leaves peer e id next failure m own = elim (Option-cases (find m id)) [
  | inl gone ↦ rw (transition, gone) (Leaves-refl peer m)
  | inr (r, found) ↦ elim (Bool-cases (can_transition_to r.state next)) [
    | inr refused ↦ rw (transition, found, refused) (Leaves-refl peer m)
    | inl may ↦ elim (Bool-cases (is_terminal next)) [
      | inl last ↦
          rw (transition, found, may, last)
            (change-again peer id (moved m.config e next failure) without_temp m (λ q. refl) own)
      | inr more ↦
          rw (transition, found, may, more)
            (change-Leaves peer id (moved m.config e next failure) m own)
    ]
  ]
]

fail-Leaves :
    (peer : Fingerprint) (e : Env) (id : TransferId) (reason : FailureReason) (m : Manager)
    → Owns peer id m
    → Leaves peer m (fail e id reason m).0
unfolding fail
fail-Leaves peer e id reason m own = transition-Leaves peer e id (ending reason) (some reason) m own

agree-Leaves :
    (peer : Fingerprint) (e : Env) (id : TransferId) (c : StreamChallenge) (m : Manager)
    → Owns peer id m
    → Leaves peer m (transition e id transferring none (change id (with_challenge c) m)).1.0
agree-Leaves peer e id c m own j r at other =
    transition-Leaves peer e id transferring none (change id (with_challenge c) m)
      (change-Owns peer id (with_challenge c) m (λ q. refl) own) j r
      (change-Leaves peer id (with_challenge c) m own j r at other) other

owned_active-Owns :
    (id : TransferId) (peer : Fingerprint) (d : Direction) (m : Manager)
    → is_some (owned_active id peer d m) ≡ true
    → Owns peer id m
unfolding owned_active
owned_active-Owns id peer d m h q found = elim (Bool-cases (q.peer =? peer)) [
  | inl mine ↦ mine
  | inr other ↦ absurd (ground arith)
]

belongs_to-Owns :
    (id : TransferId) (peer : Fingerprint) (m : Manager)
    → belongs_to id peer m ≡ true
    → Owns peer id m
belongs_to-Owns id peer m h q found = ground arith

on_accept-Leaves :
    (e : Env) (peer : Fingerprint) (transfer_id challenge : Bytes) (m : Manager)
    → Leaves peer m (on_accept e peer transfer_id challenge m).1.0
unfolding on_accept accept_as_acceptor accept_as_dialer
on_accept-Leaves e peer transfer_id challenge m = elim (Option-cases (from_bytes transfer_id)) [
  | inl bad ↦ rw (on_accept, bad) (Leaves-refl peer m)
  | inr (id, good) ↦ elim (Option-cases (owned_active id peer sending m)) [
    | inl foreign ↦ rw (on_accept, good, foreign) (Leaves-refl peer m)
    | inr (session, own) ↦
        let mine = owned_active-Owns id peer sending m (rw own refl) in
        elim (role-cases m.role) [
          | inl accepts ↦ elim (Option-cases e.generates) [
            | inl undrawn ↦ rw (on_accept, good, own, accepts, undrawn) (Leaves-refl peer m)
            | inr (c, drawn) ↦
                rw (on_accept, good, own, accepts, drawn) (agree-Leaves peer e id c m mine)
          ]
          | inr dials ↦ elim (Option-cases (challenge_from_bytes challenge)) [
            | inl short ↦
                rw (on_accept, good, own, dials, accept_as_dialer, short)
                  (fail-Leaves peer e id bad_metadata m mine)
            | inr (c, whole) ↦
                rw (on_accept, good, own, dials, accept_as_dialer, whole)
                  (agree-Leaves peer e id c m mine)
          ]
        ]
  ]
]

on_ready-Leaves :
    (e : Env) (peer : Fingerprint) (transfer_id challenge : Bytes) (m : Manager)
    → Leaves peer m (on_ready e peer transfer_id challenge m).1.0
unfolding on_ready ready_as_dialer
on_ready-Leaves e peer transfer_id challenge m = elim (Option-cases (from_bytes transfer_id)) [
  | inl bad ↦ rw (on_ready, bad) (Leaves-refl peer m)
  | inr (id, good) ↦ elim (role-cases m.role) [
    | inl accepts ↦ rw (on_ready, good, accepts) (Leaves-refl peer m)
    | inr dials ↦ elim (Bool-cases (is_some (owned_active id peer receiving m))) [
      | inr foreign ↦ rw (on_ready, good, dials, foreign) (Leaves-refl peer m)
      | inl own ↦
          let mine = owned_active-Owns id peer receiving m own in
          elim (Option-cases (challenge_from_bytes challenge)) [
            | inl short ↦
                rw (on_ready, good, dials, own, ready_as_dialer, short)
                  (fail-Leaves peer e id bad_metadata m mine)
            | inr (c, whole) ↦
                rw (on_ready, good, dials, own, ready_as_dialer, whole)
                  (change-Leaves peer id (with_challenge c) m mine)
          ]
    ]
  ]
]

on_peer_ended-Leaves :
    (e : Env) (peer : Fingerprint) (raw_id : Bytes) (reason : WireReason) (next : TransferState)
    (m : Manager)
    → Leaves peer m (on_peer_ended e peer raw_id reason next m).0
unfolding on_peer_ended
on_peer_ended-Leaves e peer raw_id reason next m = elim (Option-cases (from_bytes raw_id)) [
  | inl bad ↦ rw (on_peer_ended, bad) (Leaves-refl peer m)
  | inr (id, good) ↦ elim (Bool-cases (belongs_to id peer m)) [
    | inr foreign ↦ rw (on_peer_ended, good, foreign) (Leaves-refl peer m)
    | inl own ↦
        rw (on_peer_ended, good, own)
          (transition-Leaves peer e id next (some (reason_from_proto reason)) m
            (belongs_to-Owns id peer m own))
  ]
]

on_complete-Leaves :
    (e : Env) (peer : Fingerprint) (raw_id : Bytes) (m : Manager)
    → Leaves peer m (on_complete e peer raw_id m).0
unfolding on_complete
on_complete-Leaves e peer raw_id m = elim (Option-cases (from_bytes raw_id)) [
  | inl bad ↦ rw (on_complete, bad) (Leaves-refl peer m)
  | inr (id, good) ↦ elim (Bool-cases (is_some (owned_active id peer sending m))) [
    | inr foreign ↦ rw (on_complete, good, foreign) (Leaves-refl peer m)
    | inl own ↦
        rw (on_complete, good, own)
          (transition-Leaves peer e id completed none m (owned_active-Owns id peer sending m own))
  ]
]

-- Whatever a peer sends, the transfers of other peers stay as they are, down to the last field.
pub others_untouched :
    (e : Env) (peer : Fingerprint) (device : Bytes) (session : Session) (body : Option Body)
    (m : Manager) (id : TransferId) (r : TransferRecord)
    → find m id ≡ some r
    → (r.peer =? peer) ≡ false
    → find (handle_control e peer device session body m).1.0 id ≡ some r
unfolding handle_control
others_untouched e peer device session none m id r at other = at
others_untouched e peer device session (some (Body.offer o)) m id r at other =
    on_offer-inserts e peer device session o m id.bytes r at
others_untouched e peer device session (some (Body.accept i c)) m id r at other =
    on_accept-Leaves e peer i c m id.bytes r at other
others_untouched e peer device session (some (Body.ready i c)) m id r at other =
    on_ready-Leaves e peer i c m id.bytes r at other
others_untouched e peer device session (some (Body.reject i reason)) m id r at other =
    on_peer_ended-Leaves e peer i reason cancelled m id.bytes r at other
others_untouched e peer device session (some (Body.cancel i reason)) m id r at other =
    on_peer_ended-Leaves e peer i reason cancelled m id.bytes r at other
others_untouched e peer device session (some (Body.failed_with i reason)) m id r at other =
    on_peer_ended-Leaves e peer i reason failed m id.bytes r at other
others_untouched e peer device session (some (Body.complete i)) m id r at other =
    on_complete-Leaves e peer i m id.bytes r at other
