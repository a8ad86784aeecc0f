-- ===== src/Session/Handshake/Version.antt =====
-- The protocol version that session.rs settles on.
use anyflow.Prelude.{ℕ, ◌≤◌, ◌≡◌, ◌↔◌, some, arith}
use anyflow.Session.Handshake.{negotiate_version, protocol_version_min, protocol_version_max}

-- A version is chosen exactly when the two ranges meet; it lies in both, and no greater one does.
pub negotiate_version_lem :
    (peer_min peer_max v : ℕ)
    → (negotiate_version peer_min peer_max ≡ some v) ↔ (
        (peer_min ≤ v)
        × (protocol_version_min ≤ v)
        × (v ≤ peer_max)
        × (v ≤ protocol_version_max)
        × ((w : ℕ) → w ≤ peer_max → w ≤ protocol_version_max → w ≤ v))
unfolding negotiate_version
negotiate_version_lem peer_min peer_max v = (
  λ h. (ground arith, ground arith, ground arith, ground arith, λ w a b. ground arith),
  λ (a, b, c, d, top). ground (arith, top peer_max, top protocol_version_max),
)
