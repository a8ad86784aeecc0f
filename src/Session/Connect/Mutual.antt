-- ===== src/Session/Connect/Mutual.antt =====
-- A pairing between two honest ends (session.rs, `connect_handshake`; pairing.rs,
-- `verify_and_consume`): the initiator's proof opens the responder's window, and the confirmation
-- that the window answers with opens the initiator's session.
use anyflow.Prelude.{
  ℕ, ◌≡◌, refl, ◌∙◌, ap, true, false, some, [], ◌∷◌, length, ◌==◌, ==_iff, Option, Bytes, bytes_key,
  =?_refl, ok,
}
use anyflow.Session.Wire.{DeviceInfo, HelloStatus, HelloAck, PairStatus, Body, Envelope}
use anyflow.Session.Pairing.{
  Crypto, PairingSession, is_exhausted, compute_proof, compute_confirmation, verify_proof,
  verify_and_consume,
}
use anyflow.Session.Pairing.Window.{verify_proof_iff, verify_and_consume_ok_iff}
use anyflow.Session.Capability.{CapabilityRegistry, advertised, negotiate}
use anyflow.Session.Replay
use anyflow.Session.Replay.{ReplayGuard}
use anyflow.Session.Handshake.{
  Outcome, admit, after_sending, after_calling, returns, stored, from_hex, protocol_version_min,
  protocol_version_max,
}
use anyflow.Session.Connect.{
  established, Replies, is_spoken, session_with, nonce_len, on_response, prove, on_status, on_claim,
  on_remote, on_ack, greet, connect_handshake,
}

-- The responder's challenge, with the capabilities of its own registry.
abbrev pub challenge : DeviceInfo → ℕ → CapabilityRegistry → Bytes → HelloAck
challenge remote version offered nonce = record {
  device = some remote;
  status = HelloStatus.pairing_required;
  negotiated_protocol_version = version;
  capabilities = advertised offered;
  pairing_nonce = nonce;
}

abbrev pub carrying : Envelope → Body → Envelope
carrying env body = record env { body = some body }

abbrev pub greeting : Replies → Body
greeting r = Body.hello record {
  device = some r.local_device_info;
  min_protocol_version = protocol_version_min;
  max_protocol_version = protocol_version_max;
  capabilities = advertised r.registry;
}

-- Every write succeeds, both answers come, and the peer is saved.
abbrev pub answered : Replies → Envelope → Envelope → Replies
answered r first second = record r {
  hello_written = ok tt;
  first_read = some (ok first);
  request_written = ok tt;
  second_read = some (ok second);
  store_peer = ok tt;
}

admit-ok :
    {A : Type 0} (g g' : ReplayGuard) (env : Envelope) (next : ReplayGuard → Outcome A)
    → Replay.admit g env ≡ (g', ok tt)
    → admit g env next ≡ next g'
admit-ok g g' env next h =
    let fresh : (Replay.admit g env).1 ≡ ok tt = ap (λ p. p.1) h in
    let kept : (Replay.admit g env).0 ≡ g' = ap (λ p. p.0) h in rw (fresh, admit) (ap next kept)

module _ (c : Crypto) (hex_decode : Bytes → Option Bytes) where
  -- While a window is good, an initiator that has its token and whose challenge names the pinned
  -- device, a version that it speaks and a nonce of the right length sends a proof that the window
  -- takes. Once the window's confirmation comes back as accepted, every write has succeeded, both
  -- answers have passed the guard and the peer is saved, the initiator has a session with that
  -- device, with the capabilities that both registries have.
  pub pairing_completes :
      (w : PairingSession) (now : ℕ) (r : Replies) (server local_fp nonce : Bytes)
      (remote : DeviceInfo) (version : ℕ) (offered : CapabilityRegistry) (first second : Envelope)
      (g g' : ReplayGuard)
      → is_exhausted w now ≡ false
      → from_hex hex_decode r.local_device_info.identity_fingerprint ≡ some local_fp
      → from_hex hex_decode remote.identity_fingerprint ≡ some server
      → length nonce ≡ nonce_len
      → is_spoken version ≡ true
      → Replay.admit Replay.new
          (carrying first (Body.hello_ack (challenge remote version offered nonce)))
        ≡ (g, ok tt)
      → Replay.admit g (
          carrying second (
            Body.pair_response record {
              status = PairStatus.accepted;
              confirmation = compute_confirmation c w.token server local_fp nonce;
            }))
        ≡ (g', ok tt)
      → let proof = compute_proof c w.token server local_fp nonce in
        let run =
          connect_handshake c
            (answered r (carrying first (Body.hello_ack (challenge remote version offered nonce))) (
              carrying second (
                Body.pair_response record {
                  status = PairStatus.accepted;
                  confirmation = compute_confirmation c w.token server local_fp nonce;
                })))
            hex_decode
            server
            (some w.token) in
        (verify_and_consume c w now server local_fp nonce proof ≡ (
          record w { consumed = true },
          ok (compute_confirmation c w.token server local_fp nonce),
        ))
        × (run.sent ≡ greeting r ∷ Body.pair_request record { proof = proof } ∷ [])
        × (run.result
            ≡ ok (
                established
                  (session_with r server remote (challenge remote version offered nonce))))
  unfolding connect_handshake greet on_ack on_remote on_claim on_status prove on_response
  pairing_completes w now r server local_fp nonce remote version offered first second g g' good l s
        n v a1 a2 =
      let proof = compute_proof c w.token server local_fp nonce in
      let conf = compute_confirmation c w.token server local_fp nonce in
      let taken : verify_proof c conf conf ≡ true = (verify_proof_iff c conf conf).1 refl in
      let full : (length nonce == nonce_len) ≡ true = (==_iff (length nonce) nonce_len).1 n in
      let accepted : Envelope =
        carrying second
          (Body.pair_response record { status = PairStatus.accepted; confirmation = conf }) in
      let asked : Envelope =
        carrying first (Body.hello_ack (challenge remote version offered nonce)) in
      let r' : Replies = answered r asked accepted in
      let whole : connect_handshake c r' hex_decode server (some w.token)
          ≡ after_sending (greeting r) (
              after_sending (Body.pair_request record { proof = proof }) (
                after_calling
                  (stored remote server (negotiate r.registry (advertised offered)) version)
                  (returns (
                    established
                      (session_with r server remote (challenge remote version offered nonce)))))) =
        rw l (
          ap (after_sending (greeting r)) (
            admit-ok Replay.new g asked
              (λ guard. on_ack c r' hex_decode guard server local_fp (some w.token) asked.body) a1
            ∙ rw (s, =?_refl server, full, v)
                (ap (after_sending (Body.pair_request record { proof = proof })) (
                  admit-ok g g' accepted
                    (λ guard.
                      on_response c r' server local_fp remote
                        (challenge remote version offered nonce) w.token accepted.body)
                    a2
                  ∙ rw taken refl)))) in
      (
        (verify_and_consume_ok_iff c w (record w { consumed = true }) now server local_fp nonce
              proof conf).1
            (good, (refl, (refl, refl))),
        ap (λ o. o.sent) whole,
        ap (λ o. o.result) whole,
      )
