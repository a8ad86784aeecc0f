-- ===== src/Files/Manager/Answers/Kept.antt =====
-- What a peer's messages (lib.rs) do to the records that are there already.
use anyflow.Prelude.{
  ◌≡◌, refl, Option, none, some, Bytes, bytes_key, Bool-cases, Option-cases, ◌⊎◌, inl, inr, is_some,
}
use anyflow.Files.Auth.{challenge_from_bytes}
use anyflow.Files.Transfer.{
  TransferId, TransferState, from_bytes, transferring, completed, failed, cancelled, bad_metadata,
  WireReason, reason_from_proto,
}
use anyflow.Files.Manager.{
  Fingerprint, Session, sending, receiving, acceptor, dialer, StreamRole, Body, Manager, Env,
}
use anyflow.Files.Manager.Offers.Kept.{on_offer-Evolves}
use anyflow.Files.Manager.Answers.{
  owned_active, belongs_to, with_challenge, accept_as_acceptor, accept_as_dialer, on_accept,
  ready_as_dialer, on_ready, on_peer_ended, on_complete, handle_control,
}
use anyflow.Files.Manager.Evolution.{
  Evolves, Evolves-refl, edit-Evolves, edit-transition-Evolves, transition-Evolves, fail-Evolves,
}

accept_as_acceptor-Evolves :
    (e : Env) (id : TransferId) (session : Session) (m : Manager)
    → Evolves m (accept_as_acceptor e id session m).1.0
unfolding accept_as_acceptor
accept_as_acceptor-Evolves e id session m = elim (Option-cases e.generates) [
  | inl undrawn ↦ rw (accept_as_acceptor, undrawn) (Evolves-refl m)
  | inr (c, drawn) ↦
      rw (accept_as_acceptor, drawn)
        (edit-transition-Evolves e id (with_challenge c) transferring none m
          (edit-Evolves id (with_challenge c) m λ r. (refl, (refl, (refl, refl)))))
]

accept_as_dialer-Evolves :
    (e : Env) (id : TransferId) (challenge : Bytes) (m : Manager)
    → Evolves m (accept_as_dialer e id challenge m).1.0
unfolding accept_as_dialer
accept_as_dialer-Evolves e id challenge m = elim (Option-cases (challenge_from_bytes challenge)) [
  | inl bad ↦ rw (accept_as_dialer, bad) (fail-Evolves e id bad_metadata m)
  | inr (c, good) ↦
      rw (accept_as_dialer, good)
        (edit-transition-Evolves e id (with_challenge c) transferring none m
          (edit-Evolves id (with_challenge c) m λ r. (refl, (refl, (refl, refl)))))
]

pub role-cases : (role : StreamRole) → (role ≡ acceptor) ⊎ (role ≡ dialer)
role-cases acceptor = inl refl
role-cases dialer = inr refl

on_accept-Evolves :
    (e : Env) (peer : Fingerprint) (transfer_id challenge : Bytes) (m : Manager)
    → Evolves m (on_accept e peer transfer_id challenge m).1.0
unfolding on_accept
on_accept-Evolves e peer transfer_id challenge m = elim (Option-cases (from_bytes transfer_id)) [
  | inl bad ↦ rw (on_accept, bad) (Evolves-refl m)
  | inr (id, good) ↦ elim (Option-cases (owned_active id peer sending m)) [
    | inl foreign ↦ rw (on_accept, good, foreign) (Evolves-refl m)
    | inr (session, own) ↦ elim (role-cases m.role) [
      | inl accepts ↦ rw (on_accept, good, own, accepts) (accept_as_acceptor-Evolves e id session m)
      | inr dials ↦ rw (on_accept, good, own, dials) (accept_as_dialer-Evolves e id challenge m)
    ]
  ]
]

ready_as_dialer-Evolves :
    (e : Env) (id : TransferId) (challenge : Bytes) (m : Manager)
    → Evolves m (ready_as_dialer e id challenge m).0
unfolding ready_as_dialer
ready_as_dialer-Evolves e id challenge m = elim (Option-cases (challenge_from_bytes challenge)) [
  | inl bad ↦ rw (ready_as_dialer, bad) (fail-Evolves e id bad_metadata m)
  | inr (c, good) ↦
      rw (ready_as_dialer, good)
        (edit-Evolves id (with_challenge c) m λ r. (refl, (refl, (refl, refl))))
]

on_ready-Evolves :
    (e : Env) (peer : Fingerprint) (transfer_id challenge : Bytes) (m : Manager)
    → Evolves m (on_ready e peer transfer_id challenge m).1.0
unfolding on_ready
on_ready-Evolves e peer transfer_id challenge m = elim (Option-cases (from_bytes transfer_id)) [
  | inl bad ↦ rw (on_ready, bad) (Evolves-refl m)
  | inr (id, good) ↦ elim (role-cases m.role) [
    | inl accepts ↦ rw (on_ready, good, accepts) (Evolves-refl m)
    | inr dials ↦ elim (Bool-cases (is_some (owned_active id peer receiving m))) [
      | inr foreign ↦ rw (on_ready, good, dials, foreign) (Evolves-refl m)
      | inl own ↦ rw (on_ready, good, dials, own) (ready_as_dialer-Evolves e id challenge m)
    ]
  ]
]

on_peer_ended-Evolves :
    (e : Env) (peer : Fingerprint) (raw_id : Bytes) (reason : WireReason) (next : TransferState)
    (m : Manager)
    → Evolves m (on_peer_ended e peer raw_id reason next m).0
unfolding on_peer_ended
on_peer_ended-Evolves e peer raw_id reason next m = elim (Option-cases (from_bytes raw_id)) [
  | inl bad ↦ rw (on_peer_ended, bad) (Evolves-refl m)
  | inr (id, good) ↦ elim (Bool-cases (belongs_to id peer m)) [
    | inr foreign ↦ rw (on_peer_ended, good, foreign) (Evolves-refl m)
    | inl own ↦
        rw (on_peer_ended, good, own)
          (transition-Evolves e id next (some (reason_from_proto reason)) m)
  ]
]

on_complete-Evolves :
    (e : Env) (peer : Fingerprint) (raw_id : Bytes) (m : Manager)
    → Evolves m (on_complete e peer raw_id m).0
unfolding on_complete
on_complete-Evolves e peer raw_id m = elim (Option-cases (from_bytes raw_id)) [
  | inl bad ↦ rw (on_complete, bad) (Evolves-refl m)
  | inr (id, good) ↦ elim (Bool-cases (is_some (owned_active id peer sending m))) [
    | inr foreign ↦ rw (on_complete, good, foreign) (Evolves-refl m)
    | inl own ↦ rw (on_complete, good, own) (transition-Evolves e id completed none m)
  ]
]

pub handle_control-Evolves :
    (e : Env) (peer : Fingerprint) (device : Bytes) (session : Session) (body : Option Body)
    (m : Manager)
    → Evolves m (handle_control e peer device session body m).1.0
unfolding handle_control
handle_control-Evolves e peer device session none m = Evolves-refl m
handle_control-Evolves e peer device session (some (Body.offer o)) m =
    on_offer-Evolves e peer device session o m
handle_control-Evolves e peer device session (some (Body.accept id c)) m =
    on_accept-Evolves e peer id c m
handle_control-Evolves e peer device session (some (Body.ready id c)) m =
    on_ready-Evolves e peer id c m
handle_control-Evolves e peer device session (some (Body.reject id reason)) m =
    on_peer_ended-Evolves e peer id reason cancelled m
handle_control-Evolves e peer device session (some (Body.cancel id reason)) m =
    on_peer_ended-Evolves e peer id reason cancelled m
handle_control-Evolves e peer device session (some (Body.failed_with id reason)) m =
    on_peer_ended-Evolves e peer id reason failed m
handle_control-Evolves e peer device session (some (Body.complete id)) m =
    on_complete-Evolves e peer id m
