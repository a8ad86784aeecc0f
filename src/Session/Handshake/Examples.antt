-- ===== src/Session/Handshake/Examples.antt =====
-- A phone that pairs, and the same phone once it is trusted. Hexadecimal stands for itself here.
use anyflow.Prelude.{ℕ, ◌≡◌, refl, true, Option, some, [], ◌∷◌, replicate, Bytes, cmp_bytes, ok}
use anyflow.Session.Wire.{DeviceInfo, Hello, HelloStatus, PairStatus, Body, Envelope}
use anyflow.Session.Replay
use anyflow.Session.Replay.{ReplayGuard}
use anyflow.Session.Capability.{negotiate, advertised}
use anyflow.Session.Handshake.{
  Answers, PeerStatus, trusted, unknown, Established, accept_handshake, negotiate_version, from_hex,
  hello_ack, pair_response, verified, asked_user, stored, effective,
}
use anyflow.Session.Handshake.Authorized.{Authorization, accept_handshake_lem}
use anyflow.Session.Handshake.Replies.{IsGreeting}
use anyflow.Session.Handshake.Challenge.{IsRequest, pairing_replies}

abbrev hex : Bytes → Option Bytes
hex s = some s

abbrev peer : Bytes
peer = replicate 32 7

abbrev battery : Bytes
battery = b'b' ∷ []

abbrev files : Bytes
files = b'f' ∷ []

abbrev device : DeviceInfo
device = record {
  device_id = b'p' ∷ [];
  device_name = b'P' ∷ [];
  platform = 1;
  identity_fingerprint = peer;
}

abbrev hello : Hello
hello = record {
  device = some device;
  min_protocol_version = 1;
  max_protocol_version = 2;
  capabilities = files ∷ battery ∷ [];
}

abbrev envelope : ℕ → Body → Envelope
envelope n body = record {
  protocol_version = 1;
  message_id = replicate 16 n;
  sequence = n;
  timestamp_unix_ms = 0;
  correlation_id = [];
  body = some body;
}

abbrev answers : PeerStatus → Answers
answers status = record {
  first_read = some (ok (envelope 1 (Body.hello hello)));
  second_read = some (ok (envelope 2 (Body.pair_request record { proof = 4 ∷ [] })));
  ack_written = ok tt;
  response_written = ok tt;
  registry = record { inner = (battery, tt) ∷ (files, tt) ∷ [] };
  local_device_info = device;
  status = status;
  window_open = true;
  active = true;
  nonce = ok (9 ∷ []);
  verify_pairing_proof = λ initiator nonce proof. ok (5 ∷ []);
  confirm_pairing = true;
  store_peer = ok tt;
  status_after = trusted (b'p' ∷ []) (b'P' ∷ []) (battery ∷ []);
}

abbrev session : Established
session = record {
  peer = peer;
  device = device;
  negotiated_capabilities = battery ∷ [];
  protocol_version = 1;
}

accept_handshake_lem_example :
    (session.peer ≡ peer)
    × Authorization
        (answers unknown)
        peer
        (accept_handshake hex (answers unknown) peer).calls
        session
unfolding accept_handshake Replay.new Replay.admit negotiate cmp_bytes
accept_handshake_lem_example = accept_handshake_lem hex (answers unknown) peer session refl

abbrev greeted : ReplayGuard
greeted = record {
  last_sequence = 1;
  seen = (replicate 16 1, tt) ∷ [];
  order = replicate 16 1 ∷ [];
}

greeting : (status : PeerStatus) → IsGreeting hex (answers status) peer hello device greeted
unfolding Replay.new Replay.admit from_hex cmp_bytes
greeting status = record {
  envelope = envelope 1 (Body.hello hello);
  came = refl;
  fresh = refl;
  is_hello = refl;
  has_device = refl;
  names_key = refl;
}

abbrev requested : ReplayGuard
requested = record {
  last_sequence = 2;
  seen = (replicate 16 1, tt) ∷ (replicate 16 2, tt) ∷ [];
  order = replicate 16 1 ∷ replicate 16 2 ∷ [];
}

request : IsRequest (answers unknown) greeted 1 (9 ∷ []) (4 ∷ [])
unfolding Replay.admit cmp_bytes
request = record {
  open_window = refl;
  drawn = refl;
  envelope = envelope 2 (Body.pair_request record { proof = 4 ∷ [] });
  later = requested;
  came = refl;
  fresh = refl;
  same_version = refl;
  is_request = refl;
}

pairing_replies_example : accept_handshake hex (answers unknown) peer ≡ record {
  sent =
      hello_ack
        (answers unknown)
        HelloStatus.pairing_required
        1
        (advertised (answers unknown).registry)
        (9 ∷ [])
      ∷ pair_response PairStatus.accepted (5 ∷ [])
      ∷ [];
  calls =
      verified peer (9 ∷ []) (4 ∷ [])
      ∷ asked_user device peer
      ∷ stored device peer (negotiate (answers unknown).registry (files ∷ battery ∷ [])) 1
      ∷ [];
  result = ok record {
    peer = peer;
    device = device;
    negotiated_capabilities =
        effective (battery ∷ []) (negotiate (answers unknown).registry (files ∷ battery ∷ []));
    protocol_version = 1;
  };
}
unfolding negotiate_version
pairing_replies_example =
    ((pairing_replies hex (answers unknown) peer hello device greeted 1 (9 ∷ []) (4 ∷ [])
          (greeting unknown) refl refl refl request).1
        (5 ∷ []) refl).1
      refl refl refl
