-- ===== src/Session/Handshake/Authorized.antt =====
-- Who gets a session, and what for (session.rs, `accept_handshake`).
use anyflow.Prelude.{
  ℕ, ◌≡◌, ◌⊎◌, inl, inr, refl, true, not, Option, none, some, List, [], ◌∷◌, any, ◌==◌,
  if◌then◌else◌, Bytes, bytes_key, ◌=?◌, Result, ok, err, arith,
}
use anyflow.Session.Wire.{DeviceInfo, Hello, Body}
use anyflow.Session.Pairing.{PairingError}
use anyflow.Session.Replay
use anyflow.Session.Replay.{ReplayGuard}
use anyflow.Session.Capability.{negotiate, supports}
use anyflow.Session.Capability.Common.{has, has-keep, negotiate_lem}
use anyflow.Session.Handshake.{
  Answers, PeerStatus, trusted, unknown, revoked, Established, HostCall, verified, asked_user,
  stored, Outcome, effective, granted_of, finish_pairing, on_verdict, on_pair_request, on_version,
  on_claim, on_device, accept_pairing, accept_trusted, accept_unknown, by_status, on_hello,
  accept_handshake, Violation, fails, protocol,
}
use anyflow.Session.Handshake.Outcomes.{
  Ensures, fails-Ensures, returns-Ensures, after_sending-Ensures, after_calling-Ensures,
  try-Ensures, read-Ensures, admit-Ensures, if-Ensures,
}

-- Each capability of a session is one that this device supports and the peer was granted.
abbrev pub Within : Answers → List Bytes → Established → Type 0
Within a granted e =
    (c : Bytes)
    → has c e.negotiated_capabilities ≡ true
    → (supports a.registry c ≡ true) × (any (λ g. g =? c) granted ≡ true)

effective-Within :
    (a : Answers) (granted peer_capabilities : List Bytes) (c : Bytes)
    → has c (effective granted (negotiate a.registry peer_capabilities)) ≡ true
    → (supports a.registry c ≡ true) × (any (λ g. g =? c) granted ≡ true)
effective-Within a granted peer_capabilities c h =
    let filtered =
      has-keep (λ c. any (λ g. g =? c) granted) c (negotiate a.registry peer_capabilities) in
    let common = (negotiate_lem a.registry peer_capabilities).0 c in (ground arith, ground arith)

-- A pairing that went all the way: an open window, a proof that the host took for the nonce it was
-- challenged with, a person who said yes, and a peer that was saved, in that order.
pub record HasPaired (a : Answers) (peer : Bytes) (calls : List HostCall) : Type 0 where
  pub nonce : Bytes
  pub proof : Bytes
  pub confirmation : Bytes
  pub device : DeviceInfo
  pub common : List Bytes
  pub version : ℕ
  pub active : a.active ≡ true
  pub challenged : a.nonce ≡ ok nonce
  pub proved : a.verify_pairing_proof peer nonce proof ≡ ok confirmation
  pub confirmed : a.confirm_pairing ≡ true
  pub saved : a.store_peer ≡ ok tt
  pub in_order :
      calls
      ≡ verified peer nonce proof ∷ asked_user device peer ∷ stored device peer common version ∷ []

-- How a session came to be: of a trusted peer, with no other call of the host, or by pairing.
pub data Authorization (a : Answers) (peer : Bytes) (calls : List HostCall) (e : Established)
    : Type 0 where
  as_trusted :
      (device_id device_name : Bytes) (granted : List Bytes)
      → a.status ≡ trusted device_id device_name granted
      → calls ≡ []
      → Within a granted e
      → Authorization a peer calls e
  by_pairing :
      (a.status ≡ unknown) ⊎ ((a.status ≡ revoked) × (a.window_open ≡ true))
      → HasPaired a peer calls
      → Within a (granted_of a.status_after) e
      → Authorization a peer calls e

-- The part of it that `accept_pairing` answers for.
abbrev Paired : Answers → Bytes → List HostCall → Established → Type 0
Paired a peer calls e =
    (e.peer ≡ peer) × (HasPaired a peer calls × Within a (granted_of a.status_after) e)

module _ (a : Answers) (peer : Bytes) where
  finish_pairing-Ensures :
      (device : DeviceInfo) (nonce proof confirmation : Bytes) (version : ℕ)
      (peer_capabilities : List Bytes)
      → a.active ≡ true
      → a.nonce ≡ ok nonce
      → a.verify_pairing_proof peer nonce proof ≡ ok confirmation
      → a.confirm_pairing ≡ true
      → Ensures
          (finish_pairing a peer device version peer_capabilities confirmation)
          (λ cs e. Paired a peer (verified peer nonce proof ∷ asked_user device peer ∷ cs) e)
  unfolding finish_pairing
  finish_pairing-Ensures device nonce proof confirmation version peer_capabilities x n v c =
      after_calling-Ensures _ _ (
        try-Ensures a.store_peer _ (λ u saved. after_sending-Ensures _ _ (
          try-Ensures a.response_written _ (λ u' written. returns-Ensures _ (
            refl,
            (
              record {
                nonce = nonce;
                proof = proof;
                confirmation = confirmation;
                device = device;
                common = negotiate a.registry peer_capabilities;
                version = version;
                active = x;
                challenged = n;
                proved = v;
                confirmed = c;
                saved = saved;
                in_order = refl;
              },
              effective-Within a (granted_of a.status_after) peer_capabilities,
            ),
          )))))

  on_verdict-Ensures :
      (device : DeviceInfo) (nonce proof : Bytes) (version : ℕ) (peer_capabilities : List Bytes)
      (r : Result Bytes PairingError)
      → a.active ≡ true
      → a.nonce ≡ ok nonce
      → a.verify_pairing_proof peer nonce proof ≡ r
      → Ensures
          (on_verdict a peer device version peer_capabilities r)
          (λ cs e. Paired a peer (verified peer nonce proof ∷ cs) e)
  unfolding on_verdict
  on_verdict-Ensures device nonce proof version peer_capabilities (err e) x n v =
      after_sending-Ensures _ _ (fails-Ensures _)
  on_verdict-Ensures device nonce proof version peer_capabilities (ok confirmation) x n v =
      after_calling-Ensures _ _ (
        if-Ensures (not a.confirm_pairing) _ _
          (λ declined. after_sending-Ensures _ _ (fails-Ensures _))
          (λ agreed.
            finish_pairing-Ensures device nonce proof confirmation version peer_capabilities x n v
              (ground arith)))

  on_pair_request-Ensures :
      (device : DeviceInfo) (nonce : Bytes) (version : ℕ) (peer_capabilities : List Bytes)
      (body : Option Body)
      → a.active ≡ true
      → a.nonce ≡ ok nonce
      → Ensures (on_pair_request a peer device nonce version peer_capabilities body) (Paired a peer)
  unfolding on_pair_request
  on_pair_request-Ensures device nonce version peer_capabilities (some (Body.pair_request request))
        x n =
      after_calling-Ensures _ _
        (on_verdict-Ensures device nonce request.proof version peer_capabilities _ x n refl)
  on_pair_request-Ensures device nonce version peer_capabilities body x n = fails-Ensures _

  accept_unknown-Ensures :
      (guard : ReplayGuard) (device : DeviceInfo) (version : ℕ) (peer_capabilities : List Bytes)
      → Ensures (accept_unknown a guard peer device version peer_capabilities) (Paired a peer)
  unfolding accept_unknown accept_pairing
  accept_unknown-Ensures guard device version peer_capabilities =
      try-Ensures (if a.active then a.nonce else ok []) _ λ nonce drawn. after_sending-Ensures _ _ (
        try-Ensures a.ack_written _ λ u written.
          if-Ensures (not a.active) _ _ (λ closed. fails-Ensures _)
            λ opened. read-Ensures a.second_read _ _ λ env came. admit-Ensures guard env _ λ guard'.
              if-Ensures (not (env.protocol_version == version))
                (fails (protocol Violation.version_changed)) _ (λ changed. fails-Ensures _)
                λ same.
                  on_pair_request-Ensures device nonce version peer_capabilities env.body
                    (ground arith) (ground arith))

  -- The guarantee of the whole handshake.
  abbrev pub Guarantee : List HostCall → Established → Type 0
  Guarantee cs e = (e.peer ≡ peer) × Authorization a peer cs e

  from_pairing :
      (o : Outcome Established)
      → (a.status ≡ unknown) ⊎ ((a.status ≡ revoked) × (a.window_open ≡ true))
      → Ensures o (Paired a peer)
      → Ensures o Guarantee
  from_pairing o why h = record {
    holds =
        λ e r. let (same, (paired, within)) = h.holds e r in (same, by_pairing why paired within);
  }

  by_status-Ensures :
      (guard : ReplayGuard) (device : DeviceInfo) (version : ℕ) (peer_capabilities : List Bytes)
      (status : PeerStatus)
      → a.status ≡ status
      → Ensures (by_status a guard peer device version peer_capabilities status) Guarantee
  unfolding by_status accept_trusted
  by_status-Ensures guard device version peer_capabilities (trusted device_id device_name granted)
        s =
      after_sending-Ensures _ _ (
        try-Ensures a.ack_written _ λ u written. returns-Ensures _ (
          refl,
          as_trusted device_id device_name granted s refl
              (effective-Within a granted peer_capabilities),
        ))
  by_status-Ensures guard device version peer_capabilities unknown s =
      from_pairing _ (inl s) (accept_unknown-Ensures guard device version peer_capabilities)
  by_status-Ensures guard device version peer_capabilities revoked s =
      if-Ensures a.window_open _ _
        (λ opened.
          from_pairing _ (inr (s, opened))
            (accept_unknown-Ensures guard device version peer_capabilities))
        (λ closed. after_sending-Ensures _ _ (fails-Ensures _))

  on_version-Ensures :
      (guard : ReplayGuard) (device : DeviceInfo) (peer_capabilities : List Bytes)
      (version : Option ℕ)
      → Ensures (on_version a guard peer device peer_capabilities version) Guarantee
  unfolding on_version
  on_version-Ensures guard device peer_capabilities none =
      after_sending-Ensures _ _ (fails-Ensures _)
  on_version-Ensures guard device peer_capabilities (some version) =
      by_status-Ensures guard device version peer_capabilities a.status refl

  on_claim-Ensures :
      (guard : ReplayGuard) (hello : Hello) (device : DeviceInfo) (claimed : Option Bytes)
      → Ensures (on_claim a guard peer hello device claimed) Guarantee
  unfolding on_claim
  on_claim-Ensures guard hello device none = fails-Ensures _
  on_claim-Ensures guard hello device (some claimed) =
      if-Ensures (not (claimed =? peer)) _ _ (λ other. fails-Ensures _)
        (λ same. on_version-Ensures guard device hello.capabilities _)

module _ (hex_decode : Bytes → Option Bytes) (a : Answers) (peer : Bytes) where
  on_hello-Ensures :
      (guard : ReplayGuard) (body : Option Body)
      → Ensures (on_hello hex_decode a guard peer body) (Guarantee a peer)
  unfolding on_hello on_device
  on_hello-Ensures guard (some (Body.hello hello)) =
      elim hello.device
        as (λ d. Ensures (on_device hex_decode a guard peer hello d) (Guarantee a peer)) [
          | none ↦ fails-Ensures _
          | some device ↦ on_claim-Ensures a peer guard hello device _
        ]
  on_hello-Ensures guard body = fails-Ensures _

  -- A session is one of the peer that the TLS handshake authenticated, and was authorized: either
  -- the host trusts the peer, or the peer is unknown, or revoked with a pairing window open, and
  -- was challenged, proved the token, was confirmed by a person and saved, in that order. Each of
  -- its capabilities is one that this device supports and the peer was granted.
  pub accept_handshake_lem :
      (e : Established)
      → (accept_handshake hex_decode a peer).result ≡ ok e
      → (e.peer ≡ peer) × Authorization a peer (accept_handshake hex_decode a peer).calls e
  unfolding accept_handshake
  accept_handshake_lem =
      (read-Ensures {P = Guarantee a peer} a.first_read _ _
        λ env came. admit-Ensures Replay.new env _ λ guard. on_hello-Ensures guard env.body).holds
