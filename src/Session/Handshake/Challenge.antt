-- ===== src/Session/Handshake/Challenge.antt =====
-- How a peer that must pair is answered (session.rs, `accept_pairing`).
use anyflow.Prelude.{
  ℕ, ◌≡◌, true, false, not, Option, some, List, [], ◌∷◌, ◌==◌, ==_iff, if◌then◌else◌, Bytes,
  bytes_key, Result, ok, err, arith, ◌∙◌, ap,
}
use anyflow.Session.Wire.{DeviceInfo, Hello, PairStatus, HelloStatus, Body, Envelope}
use anyflow.Session.Pairing.{PairingError, declined_by_user, not_in_pairing_mode}
use anyflow.Session.Replay
use anyflow.Session.Replay.{ReplayGuard}
use anyflow.Session.Capability.{negotiate, advertised}
use anyflow.Session.Handshake.{
  Answers, unknown, Established, verified, asked_user, stored, Outcome, effective, granted_of,
  finish_pairing, on_verdict, on_pair_request, accept_pairing, accept_unknown, by_status,
  on_version, accept_handshake, Violation, fails, read, admit, try, after_sending, protocol,
  negotiate_version, hello_ack, pair_response, status_of, pairing,
}
use anyflow.Session.Handshake.Replies.{IsGreeting, greeted}

-- The answer to the challenge is a PAIR_REQUEST that passes the guard, under the version agreed.
pub record IsRequest (a : Answers) (guard : ReplayGuard) (version : ℕ) (nonce proof : Bytes)
    : Type 0 where
  pub open_window : a.active ≡ true
  pub drawn : a.nonce ≡ ok nonce
  pub envelope : Envelope
  pub later : ReplayGuard
  pub came : a.second_read ≡ some (ok envelope)
  pub fresh : Replay.admit guard envelope ≡ (later, ok tt)
  pub same_version : envelope.protocol_version ≡ version
  pub is_request : envelope.body ≡ some (Body.pair_request record { proof = proof })

requested :
    (a : Answers) (guard : ReplayGuard) (peer : Bytes) (device : DeviceInfo) (version : ℕ)
    (capabilities : List Bytes) (nonce proof : Bytes)
    → IsRequest a guard version nonce proof
    → accept_pairing a guard peer device nonce version capabilities
      ≡ on_pair_request a peer device nonce version capabilities
          (some (Body.pair_request record { proof = proof }))
unfolding accept_pairing
requested a guard peer device version capabilities nonce proof q =
    ap
      (λ r. read r Violation.timed_out_waiting_for_pair_request λ env. admit guard env λ guard'.
        if not (env.protocol_version == version)
        then fails (protocol Violation.version_changed)
        else on_pair_request a peer device nonce version capabilities env.body)
      q.came
    ∙ ap (passed q.envelope) q.fresh
    ∙ ap
        (λ b.
          if not b
          then fails (protocol Violation.version_changed)
          else on_pair_request a peer device nonce version capabilities q.envelope.body)
        ((==_iff q.envelope.protocol_version version).1 q.same_version)
    ∙ ap (on_pair_request a peer device nonce version capabilities) q.is_request
  where
    passed : Envelope → ReplayGuard × Result (Unit {0}) Replay.Error → Outcome Established
    passed env x = elim x.1 [
      | ok u ↦
          if not (env.protocol_version == version)
          then fails (protocol Violation.version_changed)
          else on_pair_request a peer device nonce version capabilities env.body
      | err v ↦ fails (protocol (Violation.replay v))
    ]

challenged :
    (a : Answers) (guard : ReplayGuard) (peer : Bytes) (device : DeviceInfo) (version : ℕ)
    (capabilities : List Bytes) (nonce proof : Bytes)
    → a.ack_written ≡ ok tt
    → IsRequest a guard version nonce proof
    → accept_unknown a guard peer device version capabilities
      ≡ after_sending
          (hello_ack a HelloStatus.pairing_required version (advertised a.registry) nonce)
          (on_pair_request a peer device nonce version capabilities
            (some (Body.pair_request record { proof = proof })))
unfolding accept_unknown
challenged a guard peer device version capabilities nonce proof w q =
    let body = hello_ack a HelloStatus.pairing_required version (advertised a.registry) in
    let next = λ (nonce : Bytes). accept_pairing a guard peer device nonce version capabilities in
    let open_one : (if a.active then a.nonce else ok []) ≡ ok nonce =
      ap (λ b. if b then a.nonce else ok []) q.open_window ∙ q.drawn in
    ap
      (λ r. try r λ nonce. after_sending (body nonce) (
        try a.ack_written
          λ _. if not a.active then fails (pairing not_in_pairing_mode) else next nonce))
      open_one
    ∙ ap
        (λ r.
          after_sending (body nonce)
            (try r λ _. if not a.active then fails (pairing not_in_pairing_mode) else next nonce))
        w
    ∙ ap
        (λ b.
          after_sending (body nonce)
            (if not b then fails (pairing not_in_pairing_mode) else next nonce))
        q.open_window
    ∙ ap (after_sending (body nonce))
        (requested a guard peer device version capabilities nonce proof q)

module _ (hex_decode : Bytes → Option Bytes) where
  -- An unknown peer in an open window that answers the challenge with a PAIR_REQUEST: a proof that
  -- the host refuses is answered with the reason, and no person is asked and nothing saved; one that
  -- a person declines is answered so, and nothing saved; and one that is taken, confirmed and saved
  -- is answered with the confirmation, and has its session.
  pub pairing_replies :
      (a : Answers) (peer : Bytes) (hello : Hello) (device : DeviceInfo) (guard : ReplayGuard)
      (version : ℕ) (nonce proof : Bytes)
      → IsGreeting hex_decode a peer hello device guard
      → negotiate_version hello.min_protocol_version hello.max_protocol_version ≡ some version
      → a.status ≡ unknown
      → a.ack_written ≡ ok tt
      → IsRequest a guard version nonce proof
      → let challenge =
          hello_ack a HelloStatus.pairing_required version (advertised a.registry) nonce in
        let common = negotiate a.registry hello.capabilities in
        let o = accept_handshake hex_decode a peer in
        ((e : PairingError)
          → a.verify_pairing_proof peer nonce proof ≡ err e
          → o ≡ record {
            sent = challenge ∷ pair_response (status_of e) [] ∷ [];
            calls = verified peer nonce proof ∷ [];
            result = err (pairing e);
          })
        × ((confirmation : Bytes)
            → a.verify_pairing_proof peer nonce proof ≡ ok confirmation
            → (a.confirm_pairing ≡ false
                → o ≡ record {
                  sent = challenge ∷ pair_response PairStatus.declined_by_user [] ∷ [];
                  calls = verified peer nonce proof ∷ asked_user device peer ∷ [];
                  result = err (pairing declined_by_user);
                })
              × (a.confirm_pairing ≡ true
                  → a.store_peer ≡ ok tt
                  → a.response_written ≡ ok tt
                  → o ≡ record {
                    sent = challenge ∷ pair_response PairStatus.accepted confirmation ∷ [];
                    calls =
                        verified peer nonce proof
                        ∷ asked_user device peer
                        ∷ stored device peer common version
                        ∷ [];
                    result = ok record {
                      peer = peer;
                      device = device;
                      negotiated_capabilities = effective (granted_of a.status_after) common;
                      protocol_version = version;
                    };
                  }))
  unfolding on_version by_status on_pair_request on_verdict finish_pairing
  pairing_replies a peer hello device guard version nonce proof g chosen s w q =
      let start =
        greeted hex_decode a peer hello device guard g
        ∙ ap (on_version a guard peer device hello.capabilities) chosen
        ∙ ap (by_status a guard peer device version hello.capabilities) s
        ∙ challenged a guard peer device version hello.capabilities nonce proof w q in
      (
        λ e v. start ∙ ground arith,
        λ confirmation v. (λ no. start ∙ ground arith, λ yes saved written. start ∙ ground arith),
      )
