-- ===== src/Files/Manager/Streams/Kept.antt =====
-- What the data streams (lib.rs) do to the records that are there already.
use anyflow.Prelude.{
  refl, Bool, true, false, Option, none, some, ℕ, Bytes, bytes_key, ◌=?◌, ◌==◌, Bool-cases,
  Option-cases, inl, inr, Result, ok, err,
}
use anyflow.Session.Pairing.{Crypto}
use anyflow.Files.Filename.{Text}
use anyflow.Files.Transfer.{
  TransferId, from_bytes, FailureReason, transport, storage, integrity, completed, verifying,
  reason_from_proto,
}
use anyflow.Files.Manager.{Fingerprint, Manager, Env, find, change, transition, fail, authorized}
use anyflow.Files.Manager.Streams.{
  DataStreamAuth, is_transferring, taken, without_challenge, with_stream, without_stream,
  check_record, check_stream, accept_data_stream, take_challenge, Dialled, lost, refused,
  on_dialled, is_transport, StreamPlan, open_file, awaiting_verdict, run_send, poll_verdict,
  on_no_verdict, stored, on_promoted, run_receive,
}
use anyflow.Files.Manager.Evolution.{
  Evolves, Evolves-refl, Evolves-trans, edit-Evolves, edit-transition-Evolves, edit-fail-Evolves,
  fail-Evolves,
}

module _ (c : Crypto) where
  check_stream-Evolves :
      (e : Env) (id : TransferId) (peer : Fingerprint) (mac : Bytes) (m : Manager)
      → Evolves m (check_stream c e id peer mac m).1
  unfolding check_stream
  check_stream-Evolves e id peer mac m = elim (Bool-cases (authorized e peer)) [
    | inr denied ↦ rw (check_stream, denied) (Evolves-refl m)
    | inl granted ↦
        elim (Option-cases (check_record c m.local_fingerprint id peer mac (find m id))) [
          | inr (reason, bad) ↦ rw (check_stream, granted, bad) (Evolves-refl m)
          | inl good ↦
              rw (check_stream, granted, good)
                (edit-Evolves id taken m λ r. (refl, (refl, (refl, refl))))
        ]
  ]

  pub accept_data_stream-Evolves :
      (e : Env) (peer : Fingerprint) (frame : Option DataStreamAuth) (version : ℕ) (m : Manager)
      → Evolves m (accept_data_stream c e peer frame version m).1
  unfolding accept_data_stream
  accept_data_stream-Evolves e peer none version m = Evolves-refl m
  accept_data_stream-Evolves e peer (some f) version m =
      elim (Bool-cases (f.protocol_version == version)) [
        | inr other ↦ rw (accept_data_stream, other) (Evolves-refl m)
        | inl same ↦ elim (Option-cases (from_bytes f.transfer_id)) [
          | inl bad ↦ rw (accept_data_stream, same, bad) (Evolves-refl m)
          | inr (id, good) ↦ elim (Option-cases (check_stream c e id peer f.mac m).0) [
            | inl fine ↦
                rw (accept_data_stream, same, good, fine) (check_stream-Evolves e id peer f.mac m)
            | inr (why, no_stream) ↦
                rw (accept_data_stream, same, good, no_stream)
                  (check_stream-Evolves e id peer f.mac m)
          ]
        ]
      ]

  pub take_challenge-Evolves : (id : TransferId) (m : Manager) → Evolves m (take_challenge c id m).1
  unfolding take_challenge
  take_challenge-Evolves id m = elim (Option-cases (find m id)) [
    | inl gone ↦ rw (take_challenge, gone) (Evolves-refl m)
    | inr (r, there) ↦ elim (Bool-cases (is_transferring r.state)) [
      | inr late ↦ rw (take_challenge, there, late) (Evolves-refl m)
      | inl runs ↦ elim (Option-cases r.challenge) [
        | inl used ↦ rw (take_challenge, there, runs, used) (Evolves-refl m)
        | inr (challenge, fresh) ↦
            rw (take_challenge, there, runs, fresh)
              (edit-Evolves id without_challenge m λ q. (refl, (refl, (refl, refl))))
      ]
    ]
  ]

pub on_dialled-Evolves :
    (e : Env) (id : TransferId) (how : Dialled) (m : Manager) → Evolves m (on_dialled e id how m).0
unfolding on_dialled
on_dialled-Evolves e id lost m = fail-Evolves e id transport m
on_dialled-Evolves e id (refused reason) m = fail-Evolves e id (reason_from_proto reason) m
on_dialled-Evolves e id Dialled.ready m =
    edit-Evolves id with_stream m λ r. (refl, (refl, (refl, refl)))

pub open_file-Evolves :
    (e : Env) (id : TransferId) (opens : Bool) (path : Option Bytes) (m : Manager)
    → Evolves m (open_file e id opens path m).1.0
unfolding open_file
open_file-Evolves e id opens none m = fail-Evolves e id storage m
open_file-Evolves e id true (some path) m = Evolves-refl m
open_file-Evolves e id false (some path) m = fail-Evolves e id storage m

awaiting-Evolves :
    (e : Env) (id : TransferId) (m : Manager) → Evolves m (change id (awaiting_verdict e) m)
awaiting-Evolves e id m = edit-Evolves id (awaiting_verdict e) m λ r. (refl, (refl, (refl, refl)))

pub run_send-Evolves :
    (e : Env) (id : TransferId) (result : Result (Unit {0}) FailureReason) (m : Manager)
    → Evolves m (run_send e id result m).0
unfolding run_send
run_send-Evolves e id (ok x) m = awaiting-Evolves e id m
run_send-Evolves e id (err reason) m = elim (Bool-cases (is_transport reason)) [
  | inl net ↦ rw net (awaiting-Evolves e id m)
  | inr other ↦
      rw other (edit-fail-Evolves e id (awaiting_verdict e) reason m (awaiting-Evolves e id m))
]

pub on_no_verdict-Evolves :
    (e : Env) (id : TransferId) (deadline : ℕ) (m : Manager)
    → Evolves m (on_no_verdict e id deadline m).0
unfolding on_no_verdict
on_no_verdict-Evolves e id deadline m = elim (Option-cases (poll_verdict e id deadline m)) [
  | inl waits ↦ rw (on_no_verdict, waits) (Evolves-refl m)
  | inr (true, came) ↦ rw (on_no_verdict, came) (Evolves-refl m)
  | inr (false, over) ↦ rw (on_no_verdict, over) (fail-Evolves e id transport m)
]

stored-Evolves :
    (id : TransferId) (path : Text) (m : Manager) → Evolves m (change id (stored path) m)
stored-Evolves id path m = edit-Evolves id (stored path) m λ r. (refl, (refl, (refl, refl)))

on_promoted-Evolves :
    (e : Env) (id : TransferId) (plan : StreamPlan) (temp : Bytes) (promoted : Option Text)
    (m : Manager)
    → Evolves m (on_promoted e id plan temp promoted m).0
unfolding on_promoted
on_promoted-Evolves e id plan temp none m = fail-Evolves e id storage m
on_promoted-Evolves e id plan temp (some path) m =
    edit-transition-Evolves e id (stored path) completed none m (stored-Evolves id path m)

pub run_receive-Evolves :
    (e : Env) (id : TransferId) (plan : StreamPlan) (temp : Bytes)
    (copied : Result Bytes FailureReason) (syncs : Bool) (promoted : Option Text) (m : Manager)
    → Evolves m (run_receive e id plan temp copied syncs promoted m).0
unfolding run_receive
run_receive-Evolves e id plan temp (err reason) syncs promoted m =
    edit-fail-Evolves e id without_stream reason m
      (edit-Evolves id without_stream m λ r. (refl, (refl, (refl, refl))))
run_receive-Evolves e id plan temp (ok digest) false promoted m =
    edit-fail-Evolves e id without_stream storage m
      (edit-Evolves id without_stream m λ r. (refl, (refl, (refl, refl))))
run_receive-Evolves e id plan temp (ok digest) true promoted m =
    let m' = change id without_stream m in
    let m'' = (transition e id verifying none m').1.0 in
    let h =
      edit-transition-Evolves e id without_stream verifying none m
        (edit-Evolves id without_stream m λ r. (refl, (refl, (refl, refl)))) in
    elim (Bool-cases (transition e id verifying none m').0) [
      | inr late ↦ rw (run_receive, late) h
      | inl goes ↦ elim (Bool-cases (digest =? plan.sha256)) [
        | inr bad ↦
            rw (run_receive, goes, bad)
              (Evolves-trans m m'' (fail e id integrity m'').0 h (fail-Evolves e id integrity m''))
        | inl good ↦
            rw (run_receive, goes, good)
              (Evolves-trans m m'' (on_promoted e id plan temp promoted m'').0 h
                (on_promoted-Evolves e id plan temp promoted m''))
      ]
    ]
