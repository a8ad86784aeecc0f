-- ===== src/Session/Handshake/Replies.antt =====
-- What a peer whose HELLO is in order is answered (session.rs, `accept_handshake`).
use anyflow.Prelude.{
  ℕ, ◌≡◌, false, not, Option, none, some, List, [], ◌∷◌, if◌then◌else◌, Bytes, bytes_key, =?_refl,
  Result, ok, err, arith, ◌∙◌, ap,
}
use anyflow.Session.Wire.{DeviceInfo, Hello, HelloStatus, Body, Envelope}
use anyflow.Session.Pairing.{not_in_pairing_mode}
use anyflow.Session.Replay
use anyflow.Session.Replay.{ReplayGuard}
use anyflow.Session.Capability.{negotiate, advertised}
use anyflow.Session.Handshake.{
  Answers, trusted, unknown, revoked, Established, Outcome, effective, accept_trusted,
  accept_unknown, by_status, on_version, on_claim, on_device, on_hello, accept_handshake, Violation,
  fails, read, admit, protocol, negotiate_version, from_hex, hello_ack, pairing, not_authorized,
  version_unsupported,
}

module _ (hex_decode : Bytes → Option Bytes) where
  -- The first envelope is a HELLO that passes the guard and names the key of the connection.
  pub record IsGreeting (a : Answers) (peer : Bytes) (hello : Hello) (device : DeviceInfo)
      (guard : ReplayGuard) : Type 0 where
    pub envelope : Envelope
    pub came : a.first_read ≡ some (ok envelope)
    pub fresh : Replay.admit Replay.new envelope ≡ (guard, ok tt)
    pub is_hello : envelope.body ≡ some (Body.hello hello)
    pub has_device : hello.device ≡ some device
    pub names_key : from_hex hex_decode device.identity_fingerprint ≡ some peer

  pub greeted :
      (a : Answers) (peer : Bytes) (hello : Hello) (device : DeviceInfo) (guard : ReplayGuard)
      → IsGreeting a peer hello device guard
      → accept_handshake hex_decode a peer
        ≡ on_version a guard peer device hello.capabilities
            (negotiate_version hello.min_protocol_version hello.max_protocol_version)
  unfolding accept_handshake on_hello on_device on_claim
  greeted a peer hello device guard g =
      ap
        (λ r.
          read r Violation.timed_out_waiting_for_hello
            λ env. admit Replay.new env λ guard. on_hello hex_decode a guard peer env.body)
        g.came
      ∙ ap (passed a peer g.envelope) g.fresh
      ∙ ap (on_hello hex_decode a guard peer) g.is_hello
      ∙ ap (on_device hex_decode a guard peer hello) g.has_device
      ∙ ap (on_claim a guard peer hello device) g.names_key
      ∙ ap
          (λ b.
            if not b
            then fails (protocol Violation.hello_fingerprint_mismatch)
            else on_version a guard peer device hello.capabilities
                (negotiate_version hello.min_protocol_version hello.max_protocol_version))
          (=?_refl peer)
    where
      passed :
          Answers
          → Bytes
          → Envelope
          → ReplayGuard × Result (Unit {0}) Replay.Error
          → Outcome Established
      passed a peer env x = elim x.1 [
        | ok u ↦ on_hello hex_decode a x.0 peer env.body
        | err v ↦ fails (protocol (Violation.replay v))
      ]

  -- A peer whose HELLO is in order is refused with VERSION_UNSUPPORTED if no version is common;
  -- otherwise, if it is revoked and no pairing window is open, with REJECTED; a trusted one is
  -- answered TRUSTED and has its session; an unknown one, while no pairing is active, is told that
  -- pairing is required, with no nonce, and dropped. The host is asked to do nothing in any of these.
  pub greeting_replies :
      (a : Answers) (peer : Bytes) (hello : Hello) (device : DeviceInfo) (guard : ReplayGuard)
      → IsGreeting a peer hello device guard
      → let chosen = negotiate_version hello.min_protocol_version hello.max_protocol_version in
        let o = accept_handshake hex_decode a peer in
        (chosen ≡ none
          → o ≡ record {
            sent = hello_ack a HelloStatus.version_unsupported 0 [] [] ∷ [];
            calls = [];
            result = err version_unsupported;
          })
        × ((version : ℕ)
            → chosen ≡ some version
            → a.ack_written ≡ ok tt
            → (a.status ≡ revoked
                → a.window_open ≡ false
                → o ≡ record {
                  sent = hello_ack a HelloStatus.rejected version [] [] ∷ [];
                  calls = [];
                  result = err not_authorized;
                })
              × ((device_id device_name : Bytes) (granted : List Bytes)
                  → a.status ≡ trusted device_id device_name granted
                  → o ≡ record {
                    sent = hello_ack a HelloStatus.trusted version (advertised a.registry) [] ∷ [];
                    calls = [];
                    result = ok record {
                      peer = peer;
                      device = record device { device_id = device_id; device_name = device_name };
                      negotiated_capabilities =
                          effective granted (negotiate a.registry hello.capabilities);
                      protocol_version = version;
                    };
                  })
              × (a.status ≡ unknown
                  → a.active ≡ false
                  → o ≡ record {
                    sent =
                        hello_ack a HelloStatus.pairing_required version (advertised a.registry) []
                        ∷ [];
                    calls = [];
                    result = err (pairing not_in_pairing_mode);
                  }))
  unfolding on_version by_status accept_trusted accept_unknown
  greeting_replies a peer hello device guard g =
      let start = greeted a peer hello device guard g in
      let chosen = on_version a guard peer device hello.capabilities in
      (
        λ e. start ∙ ap chosen e,
        λ version e w.
            let by = by_status a guard peer device version hello.capabilities in
            (
              λ s c. start ∙ ap chosen e ∙ ap by s ∙ ground arith,
              λ device_id device_name granted s. start ∙ ap chosen e ∙ ap by s ∙ ground arith,
              λ s c. start ∙ ap chosen e ∙ ap by s ∙ ground arith,
            ),
      )
