-- ===== src/Session/Connect/Authenticated.antt =====
-- What an initiator that has a session knows (session.rs, `connect_handshake`).
use anyflow.Prelude.{
  ◌≡◌, refl, ap, ◌∙◌, true, false, not, Option, none, some, List, [], ◌∷◌, length, ◌==◌, Bytes,
  bytes_key, ◌=?◌, =?_iff, ok, arith,
}
use anyflow.Session.Wire.{
  DeviceInfo, HelloStatus, HelloAck, PairStatus, PairResponse, Body, Envelope,
}
use anyflow.Session.Pairing.{Crypto, compute_confirmation, verify_proof}
use anyflow.Session.Pairing.Window.{verify_proof_iff}
use anyflow.Session.Replay
use anyflow.Session.Replay.{ReplayGuard}
use anyflow.Session.Capability.{negotiate}
use anyflow.Session.Handshake.{Established, HostCall, stored, Outcome, from_hex}
use anyflow.Session.Handshake.Outcomes.{
  Ensures, fails-Ensures, returns-Ensures, after_sending-Ensures, after_calling-Ensures,
  try-Ensures, read-Ensures, admit-Ensures, if-Ensures,
}
use anyflow.Session.Connect.{
  ClientHandshake, established, pairing_required, Replies, is_spoken, is_accepted, session_with,
  nonce_len, on_response, prove, on_status, on_claim, on_remote, on_ack, greet, connect_handshake,
}

module _ (c : Crypto) (r : Replies) (server : Bytes) (local_fp : Bytes) (token : Option Bytes) where
  -- How the session came to be: the responder's answer says that it trusts this device, or it asked
  -- for a proof, and the second envelope that was read says that it took it and has the confirmation
  -- that shows that it holds the token too.
  pub data Grounds (remote : DeviceInfo) (ack : HelloAck) (calls : List HostCall) : Type 0 where
    as_trusted : ack.status ≡ HelloStatus.trusted → calls ≡ [] → Grounds remote ack calls
    by_pairing :
        (t : Bytes) (env : Envelope) (resp : PairResponse)
        → r.second_read ≡ some (ok env)
        → env.body ≡ some (Body.pair_response resp)
        → ack.status ≡ HelloStatus.pairing_required
        → token ≡ some t
        → length ack.pairing_nonce ≡ nonce_len
        → resp.status ≡ PairStatus.accepted
        → resp.confirmation ≡ compute_confirmation c t server local_fp ack.pairing_nonce
        → r.store_peer ≡ ok tt
        → calls
          ≡ stored remote server
              (negotiate r.registry ack.capabilities)
              ack.negotiated_protocol_version
            ∷ []
        → Grounds remote ack calls

  -- Of a session that is established.
  abbrev Known : DeviceInfo → HelloAck → List HostCall → ClientHandshake → Type 0
  Known remote ack calls h =
      (e : Established)
      → h ≡ established e
      → (e ≡ session_with r server remote ack)
        × (is_spoken ack.negotiated_protocol_version ≡ true)
        × Grounds remote ack calls

  known :
      (remote : DeviceInfo) (ack : HelloAck) (calls : List HostCall)
      → is_spoken ack.negotiated_protocol_version ≡ true
      → Grounds remote ack calls
      → Known remote ack calls (established (session_with r server remote ack))
  known remote ack calls spoken g e h = (cc, spoken, g)

  accepted : (s : PairStatus) → not (is_accepted s) ≡ false → s ≡ PairStatus.accepted
  accepted s h = ground arith

  on_response-Ensures :
      (remote : DeviceInfo) (ack : HelloAck) (t : Bytes) (env : Envelope) (body : Option Body)
      → r.second_read ≡ some (ok env)
      → env.body ≡ body
      → ack.status ≡ HelloStatus.pairing_required
      → token ≡ some t
      → length ack.pairing_nonce ≡ nonce_len
      → is_spoken ack.negotiated_protocol_version ≡ true
      → Ensures (on_response c r server local_fp remote ack t body) (Known remote ack)
  unfolding on_response
  on_response-Ensures remote ack t env (some (Body.pair_response resp)) came it s h n v =
      if-Ensures (not (is_accepted resp.status)) _ _ (λ refused. fails-Ensures _)
        λ taken.
          if-Ensures
            (not (
              verify_proof c (compute_confirmation c t server local_fp ack.pairing_nonce)
                resp.confirmation))
            _ _ (λ wrong. fails-Ensures _)
            λ right. after_calling-Ensures _ _ (
              try-Ensures r.store_peer _ λ u saved. returns-Ensures _ (
                known remote ack _ v (
                  by_pairing t env resp came it s h n (accepted resp.status taken)
                    ((verify_proof_iff c _ resp.confirmation).0 (ground arith)) saved refl)))
  on_response-Ensures remote ack t env body came it s h n v = fails-Ensures _

  prove-Ensures :
      (guard : ReplayGuard) (remote : DeviceInfo) (ack : HelloAck) (o : Option Bytes)
      → token ≡ o
      → ack.status ≡ HelloStatus.pairing_required
      → Ensures (prove c r guard server local_fp remote ack o) (Known remote ack)
  unfolding prove
  prove-Ensures guard remote ack none h s = returns-Ensures pairing_required λ e x. cc
  prove-Ensures guard remote ack (some t) h s =
      if-Ensures (not (length ack.pairing_nonce == nonce_len)) _ _ (λ short. fails-Ensures _)
        λ long.
          if-Ensures (not (is_spoken ack.negotiated_protocol_version)) _ _
            (λ foreign. fails-Ensures _)
            λ spoken. after_sending-Ensures _ _ (
              try-Ensures r.request_written _ λ u written.
                read-Ensures r.second_read _ _ λ env came. admit-Ensures guard env _ λ guard'.
                  on_response-Ensures remote ack t env env.body came refl s h (ground arith)
                    (ground arith))

  on_status-Ensures :
      (guard : ReplayGuard) (remote : DeviceInfo) (ack : HelloAck) (s : HelloStatus)
      → ack.status ≡ s
      → Ensures (on_status c r guard server local_fp remote ack token s) (Known remote ack)
  unfolding on_status
  on_status-Ensures guard remote ack HelloStatus.version_unsupported e = fails-Ensures _
  on_status-Ensures guard remote ack HelloStatus.rejected e = fails-Ensures _
  on_status-Ensures guard remote ack HelloStatus.trusted e =
      if-Ensures (not (is_spoken ack.negotiated_protocol_version)) _ _ (λ foreign. fails-Ensures _)
        λ spoken. returns-Ensures _ (known remote ack [] (ground arith) (as_trusted e refl))
  on_status-Ensures guard remote ack HelloStatus.pairing_required e =
      prove-Ensures guard remote ack token refl e
  on_status-Ensures guard remote ack HelloStatus.unspecified e = fails-Ensures _

  -- The answer that the session rests on: the first envelope that was read, from the device whose
  -- key is the pinned one.
  pub record IsAnswer (hex_decode : Bytes → Option Bytes) (remote : DeviceInfo) (ack : HelloAck)
      : Type 0 where
    pub env : Envelope
    pub came : r.first_read ≡ some (ok env)
    pub is_ack : env.body ≡ some (Body.hello_ack ack)
    pub names : ack.device ≡ some remote
    pub pinned : from_hex hex_decode remote.identity_fingerprint ≡ some server

  pub record IsKnown (hex_decode : Bytes → Option Bytes) (calls : List HostCall) (e : Established)
      : Type 0 where
    pub remote : DeviceInfo
    pub ack : HelloAck
    pub answer : IsAnswer hex_decode remote ack
    pub opened : e ≡ session_with r server remote ack
    pub spoken : is_spoken ack.negotiated_protocol_version ≡ true
    pub grounds : Grounds remote ack calls

  module _ (hex_decode : Bytes → Option Bytes) where
    abbrev Guarantee : List HostCall → ClientHandshake → Type 0
    Guarantee calls h = (e : Established) → h ≡ established e → IsKnown hex_decode calls e

    from_status :
        (o : Outcome ClientHandshake) (remote : DeviceInfo) (ack : HelloAck)
        → IsAnswer hex_decode remote ack
        → Ensures o (Known remote ack)
        → Ensures o Guarantee
    from_status o remote ack answer h = record {
      holds = λ a got e same.
          let (opened, spoken, grounds) = h.holds a got e same in
          record {
            remote = remote;
            ack = ack;
            answer = answer;
            opened = opened;
            spoken = spoken;
            grounds = grounds;
          };
    }

    on_claim-Ensures :
        (guard : ReplayGuard) (env : Envelope) (remote : DeviceInfo) (ack : HelloAck)
        (claimed : Option Bytes)
        → r.first_read ≡ some (ok env)
        → env.body ≡ some (Body.hello_ack ack)
        → ack.device ≡ some remote
        → from_hex hex_decode remote.identity_fingerprint ≡ claimed
        → Ensures (on_claim c r guard server local_fp remote ack token claimed) Guarantee
    unfolding on_claim
    on_claim-Ensures guard env remote ack none came b d f = fails-Ensures _
    on_claim-Ensures guard env remote ack (some claimed) came b d f =
        if-Ensures (not (claimed =? server)) _ _ (λ other. fails-Ensures _)
          λ same.
            let pin : claimed ≡ server = (=?_iff claimed server).0 (ground arith) in
            from_status _ remote ack
              (record { env = env; came = came; is_ack = b; names = d; pinned = f ∙ ap some pin })
              (on_status-Ensures guard remote ack ack.status refl)

    on_remote-Ensures :
        (guard : ReplayGuard) (env : Envelope) (ack : HelloAck) (device : Option DeviceInfo)
        → r.first_read ≡ some (ok env)
        → env.body ≡ some (Body.hello_ack ack)
        → ack.device ≡ device
        → Ensures (on_remote c r hex_decode guard server local_fp ack token device) Guarantee
    unfolding on_remote
    on_remote-Ensures guard env ack none came b d = fails-Ensures _
    on_remote-Ensures guard env ack (some remote) came b d =
        on_claim-Ensures guard env remote ack _ came b d refl

    on_ack-Ensures :
        (guard : ReplayGuard) (env : Envelope) (body : Option Body)
        → r.first_read ≡ some (ok env)
        → env.body ≡ body
        → Ensures (on_ack c r hex_decode guard server local_fp token body) Guarantee
    unfolding on_ack
    on_ack-Ensures guard env (some (Body.hello_ack ack)) came b =
        on_remote-Ensures guard env ack ack.device came b refl
    on_ack-Ensures guard env body came b = fails-Ensures _

    pub greet-Ensures : Ensures (greet c r hex_decode server token (some local_fp)) Guarantee
    unfolding greet
    greet-Ensures = after_sending-Ensures _ _ (
        try-Ensures r.hello_written _ λ u written. read-Ensures r.first_read _ _ λ env came.
          admit-Ensures Replay.new env _ λ guard. on_ack-Ensures guard env env.body came refl)

module _ (c : Crypto) (r : Replies) (hex_decode : Bytes → Option Bytes) (server : Bytes)
    (token : Option Bytes) where
  -- A session that the initiator has is one with the device whose key it had pinned, in a version
  -- that it speaks, with the capabilities common to both. The responder's answer said that it trusts
  -- this device; or it asked for a proof, this device has a token, the second envelope that came says
  -- that the proof was taken and carries the confirmation's MAC under that token, and the peer was
  -- saved.
  pub connect_handshake_lem :
      (local_fp : Bytes) (e : Established)
      → from_hex hex_decode r.local_device_info.identity_fingerprint ≡ some local_fp
      → (connect_handshake c r hex_decode server token).result ≡ ok (established e)
      → IsKnown c r server local_fp token hex_decode
          (connect_handshake c r hex_decode server token).calls
          e
  unfolding connect_handshake
  connect_handshake_lem local_fp e h =
      rw h
        λ got. (greet-Ensures c r server local_fp token hex_decode).holds (established e) got e refl
