-- ===== src/Files/Auth/Bound.antt =====
-- A proof opens one stream (auth.rs).
use anyflow.Prelude.{◌^◌, ◌<◌, ◌≡◌, ◌↔◌, ap, true, ==_iff, length, Bytes, arith}
use anyflow.Session.Pairing.{Crypto, mac_message}
use anyflow.Session.Pairing.Message.{mac_message-injective}
use anyflow.Files.Transfer.{TransferId}
use anyflow.Files.Auth.{StreamChallenge, data_stream_domain, compute_stream_mac, verify_stream_mac}

module _ (c : Crypto) where
  pub verify_stream_mac_iff :
      (expected received : Bytes)
      → (verify_stream_mac c expected received ≡ true) ↔ (received ≡ expected)
  unfolding verify_stream_mac
  verify_stream_mac_iff expected received =
      ground (arith, c.ct_eq_iff expected received, ==_iff (length received) (length expected))

  -- The MAC that the dialer sends for its transfer is taken where the acceptor computes it for the
  -- same two devices and the same transfer, and nowhere else, provided that HMAC does not collide on
  -- these two messages under this challenge.
  pub stream_mac-is_bound :
      (challenge : StreamChallenge) (a d a' d' : Bytes) (t t' : TransferId)
      → length a < 2 ^ 32
      → length d < 2 ^ 32
      → length t.bytes < 2 ^ 32
      → length a' < 2 ^ 32
      → length d' < 2 ^ 32
      → length t'.bytes < 2 ^ 32
      → (c.hmac challenge.bytes (mac_message data_stream_domain a d t.bytes)
            ≡ c.hmac challenge.bytes (mac_message data_stream_domain a' d' t'.bytes)
          → mac_message data_stream_domain a d t.bytes
            ≡ mac_message data_stream_domain a' d' t'.bytes)
      → (verify_stream_mac c
            (compute_stream_mac c challenge a' d' t')
            (compute_stream_mac c challenge a d t)
          ≡ true)
        ↔ ((a ≡ a') × ((d ≡ d') × (t ≡ t')))
  unfolding compute_stream_mac
  stream_mac-is_bound challenge a d a' d' t t' ha hd ht ha' hd' ht' no_collision = (
    λ h.
        let same =
          (verify_stream_mac_iff (compute_stream_mac c challenge a' d' t')
              (compute_stream_mac c challenge a d t)).0
            h in
        let (one, (two, three)) =
          mac_message-injective data_stream_domain a d t.bytes a' d' t'.bytes ha hd ht ha' hd' ht'
            (no_collision same) in
        (one, (two, ap (λ (b : Bytes). record { bytes = b }) three)),
    λ (one, (two, three)).
        (verify_stream_mac_iff (compute_stream_mac c challenge a' d' t')
            (compute_stream_mac c challenge a d t)).1
          (cc),
  )
