-- ===== src/Files/Manager/Streams/Admitted.antt =====
-- Who gets a data stream (lib.rs, `check_stream`).
use anyflow.Prelude.{
  ◌≡◌, ◌↔◌, refl, sym, ◌∙◌, true, Option, none, some, Bytes, bytes_key, =?_iff, =?_refl, is_some,
  arith, Option-cases, inl, inr, subst,
}
use anyflow.Collections.BTreeMap.{get-modify}
use anyflow.Session.Pairing.{Crypto}
use anyflow.Files.Transfer.{TransferId, TransferState, transferring}
use anyflow.Files.Auth.{StreamChallenge, compute_stream_mac}
use anyflow.Files.Auth.Bound.{verify_stream_mac_iff}
use anyflow.Files.Manager.{Fingerprint, TransferRecord, Manager, Env, find, change, authorized}
use anyflow.Files.Manager.Streams.{is_transferring, taken, check_record, check_stream}

is_transferring_iff : (s : TransferState) → (is_transferring s ≡ true) ↔ (s ≡ transferring)
unfolding is_transferring
is_transferring_iff s = ground arith

unspent :
    (r q : TransferRecord)
    → some r ≡ some q
    → r.challenge ≡ none
    → (ch : StreamChallenge) → q.challenge ≡ some ch
    → ⊥
unspent r q e used ch unused = let same : r ≡ q = cc in cc

find-taken :
    (id : TransferId) (m : Manager) (r : TransferRecord)
    → find m id ≡ some r
    → find (change id taken m) id ≡ some (taken r)
unfolding change
find-taken id m r found =
    rw (get-modify id.bytes id.bytes taken m.transfers, =?_refl id.bytes, found) refl

module _ (c : Crypto) where
  -- What a stream is let in on: the peer's own transfer, agreed on and not yet streamed, and the MAC
  -- of its challenge.
  pub record Admission (local_fingerprint : Fingerprint) (id : TransferId) (peer : Fingerprint)
      (mac : Bytes) (r : TransferRecord) : Type 0 where
    pub own : r.peer ≡ peer
    pub runs : r.state ≡ transferring
    pub challenge : StreamChallenge
    pub unused : r.challenge ≡ some challenge
    pub proven : mac ≡ compute_stream_mac c challenge local_fingerprint peer id

  check_record_yes :
      (l : Fingerprint) (id : TransferId) (peer : Fingerprint) (mac : Bytes)
      (o : Option TransferRecord)
      → check_record c l id peer mac o ≡ none
      → (r : TransferRecord) × ((o ≡ some r) × Admission l id peer mac r)
  unfolding check_record
  check_record_yes l id peer mac none h = cc
  check_record_yes l id peer mac (some r) h = elim (Option-cases r.challenge) [
    | inl used ↦ absurd (ground (arith, =?_iff r.peer peer, is_transferring_iff r.state))
    | inr (ch, unused) ↦ (
      r,
      (
        refl,
        record {
          own = ground (
            arith,
            =?_iff r.peer peer,
            is_transferring_iff r.state,
            verify_stream_mac_iff c (compute_stream_mac c ch l peer id) mac,
          );
          runs = ground (
            arith,
            =?_iff r.peer peer,
            is_transferring_iff r.state,
            verify_stream_mac_iff c (compute_stream_mac c ch l peer id) mac,
          );
          challenge = ch;
          unused = unused;
          proven = ground (
            arith,
            =?_iff r.peer peer,
            is_transferring_iff r.state,
            verify_stream_mac_iff c (compute_stream_mac c ch l peer id) mac,
          );
        },
      ),
    )
  ]

  check_record_of :
      (l : Fingerprint) (id : TransferId) (peer : Fingerprint) (mac : Bytes) (r : TransferRecord)
      → Admission l id peer mac r
      → check_record c l id peer mac (some r) ≡ none
  unfolding check_record
  check_record_of l id peer mac r a = ground (
    arith,
    a.own,
    a.runs,
    a.unused,
    =?_iff r.peer peer,
    is_transferring_iff r.state,
    (verify_stream_mac_iff c (compute_stream_mac c a.challenge l peer id) mac).1 a.proven,
  )

  let_in :
      (e : Env) (id : TransferId) (peer : Fingerprint) (mac : Bytes) (m : Manager)
      (r : TransferRecord)
      → authorized e peer ≡ true
      → find m id ≡ some r
      → Admission m.local_fingerprint id peer mac r
      → (check_stream c e id peer mac m).1 ≡ change id taken m
  unfolding check_stream
  let_in e id peer mac m r granted there a =
      rw (check_stream, granted, there, check_record_of m.local_fingerprint id peer mac r a) refl

  passes :
      (e : Env) (id : TransferId) (peer : Fingerprint) (mac : Bytes) (m : Manager)
      → (check_stream c e id peer mac m).0 ≡ none
      → (authorized e peer ≡ true)
        × (check_record c m.local_fingerprint id peer mac (find m id) ≡ none)
  unfolding check_stream
  passes e id peer mac m h = ground arith

  -- A stream is let in exactly where the host lets the peer use the capability and the record is as
  -- Admission says.
  pub check_stream_iff :
      (e : Env) (id : TransferId) (peer : Fingerprint) (mac : Bytes) (m : Manager)
      → ((check_stream c e id peer mac m).0 ≡ none) ↔ (
          (authorized e peer ≡ true)
          × ((r : TransferRecord) × ((find m id ≡ some r)
                × Admission m.local_fingerprint id peer mac r)))
  unfolding check_stream
  check_stream_iff e id peer mac m = (
    λ h.
        let (granted, fine) = passes e id peer mac m h in
        (granted, check_record_yes m.local_fingerprint id peer mac (find m id) fine),
    λ (granted, (r, (there, a))).
        rw (check_stream, granted, there, check_record_of m.local_fingerprint id peer mac r a) refl,
  )

  refused_if_spent :
      (e : Env) (id : TransferId) (peer : Fingerprint) (mac : Bytes) (m : Manager)
      (r : TransferRecord)
      → find m id ≡ some r
      → r.challenge ≡ none
      → is_some (check_stream c e id peer mac m).0 ≡ true
  refused_if_spent e id peer mac m r there used =
      elim (Option-cases (check_stream c e id peer mac m).0) [
        | inr (reason, no_stream) ↦ rw no_stream refl
        | inl in_it_is ↦
            let (granted, (q, (found, a))) = (check_stream_iff e id peer mac m).0 in_it_is in
            absurd (unspent r q (sym there ∙ found) used a.challenge a.unused)
      ]

  -- A stream that is let in uses the challenge up: whoever comes next, and whatever MAC is sent, a
  -- second stream of the transfer is refused.
  pub check_stream_once :
      (e e' : Env) (id : TransferId) (peer peer' : Fingerprint) (mac mac' : Bytes) (m : Manager)
      → (check_stream c e id peer mac m).0 ≡ none
      → is_some (check_stream c e' id peer' mac' (check_stream c e id peer mac m).1).0 ≡ true
  check_stream_once e e' id peer peer' mac mac' m h =
      let (granted, (r, (found, a))) = (check_stream_iff e id peer mac m).0 h in
      subst (λ n. is_some (check_stream c e' id peer' mac' n).0 ≡ true)
        (sym (let_in e id peer mac m r granted found a))
        (refused_if_spent e' id peer' mac' (change id taken m) (taken r) (find-taken id m r found)
          refl)
