-- ===== src/Store/Trust.antt =====
-- Who is trusted, and with what, after any calls on the peers of store.rs.
use anyflow.Prelude.{
  ◌≡◌, refl, Bool, true, false, not, none, some, List, [], ◌∷◌, all, ◌=?◌, =?_refl, Bytes,
  bytes_key, if◌then◌else◌, arith, Option-cases, inl, inr,
}
use anyflow.Collections.BTreeMap
use anyflow.Collections.BTreeMap.{BTreeMap, get-insert, get-remove, get-modify}
use anyflow.Store.Entries.{persist-peers, get-bury, get-change}
use anyflow.Store.Invariant.{
  Call, adds, revokes, hides, hides_all, grants, sets_clipboard, sets_notification, records_version,
  call,
}
use anyflow.Store.{
  Fingerprint, TrustedPeer, Peers, Store, unless_revoked, trusted_peer, peer_record, allows,
  persist, add_peer, revoke_peer, without_trust, commit, bury, bury_all, hide_revoked_peer,
  hide_all_revoked_peers, targets_of, change, set_capability_grant, set_clipboard_policy,
  set_notification_policy, record_protocol_version, with_grant,
}

untrusted : Fingerprint → Peers → Bool
unfolding BTreeMap.get
untrusted fp m = elim (unless_revoked (BTreeMap.get fp m)) [ none ↦ true | some p ↦ false ]

modify-untrusted :
    (fp j : Fingerprint) (f : TrustedPeer → TrustedPeer) (m : Peers)
    → ((p : TrustedPeer) → p.revoked ≡ true → (f p).revoked ≡ true)
    → untrusted j m ≡ true
    → untrusted j (BTreeMap.modify fp f m) ≡ true
unfolding untrusted
modify-untrusted fp j f m keeps h = elim (Option-cases (BTreeMap.get j m)) [
  | inl e ↦ ground (arith, get-modify fp j f m)
  | inr (p, e) ↦ ground (arith, get-modify fp j f m, keeps p)
]

bury-untrusted :
    (fp j : Fingerprint) (m : Peers) → untrusted j m ≡ true → untrusted j (bury fp m) ≡ true
unfolding untrusted
bury-untrusted fp j m h = elim (Option-cases (BTreeMap.get j m)) [
  | inl e ↦ ground (arith, get-bury fp j m)
  | inr (p, e) ↦ ground (arith, get-bury fp j m)
]

bury_all-untrusted :
    (fps : List Fingerprint) (j : Fingerprint) (m : Peers)
    → untrusted j m ≡ true
    → untrusted j (bury_all fps m) ≡ true
unfolding bury_all
bury_all-untrusted [] j m h = h
bury_all-untrusted (fp ∷ fps) j m h = bury_all-untrusted fps j (bury fp m) (bury-untrusted fp j m h)

persist-untrusted :
    (writes : Bool) (j : Fingerprint) (s : Store)
    → untrusted j s.peers ≡ true
    → untrusted j (persist writes s).0.peers ≡ true
persist-untrusted writes j s h = rw (persist-peers writes s) h

commit-untrusted :
    (writes : Bool) (next : Peers) (j : Fingerprint) (s : Store)
    → untrusted j next ≡ true
    → untrusted j s.peers ≡ true
    → untrusted j (commit writes next s).0.peers ≡ true
unfolding commit persist
commit-untrusted true next j s h k = h
commit-untrusted false next j s h k = k

change-untrusted :
    (writes : Bool) (fp j : Fingerprint) (f : TrustedPeer → TrustedPeer) (s : Store)
    → ((p : TrustedPeer) → p.revoked ≡ true → (f p).revoked ≡ true)
    → untrusted j s.peers ≡ true
    → untrusted j (change writes fp f s).0.peers ≡ true
unfolding change
change-untrusted writes fp j f s keeps h =
    persist-untrusted writes j _ (modify-untrusted fp j f s.peers keeps h)

-- Pairing is the one call that is about trusting a device.
abbrev pub pairs : Fingerprint → Call → Bool
pairs j (adds p) = j =? p.fingerprint
pairs j _ = false

call-untrusted :
    (writes : Bool) (c : Call) (j : Fingerprint) (s : Store)
    → pairs j c ≡ false
    → untrusted j s.peers ≡ true
    → untrusted j (call writes c s).0.peers ≡ true
unfolding call add_peer revoke_peer hide_revoked_peer hide_all_revoked_peers set_capability_grant
    set_clipboard_policy set_notification_policy record_protocol_version
call-untrusted writes (adds p) j s other h =
    let same = get-insert p.fingerprint j p s.peers in
    persist-untrusted writes j _ (unfold untrusted in ground arith)
call-untrusted writes (revokes fp) j s other h =
    let after : Store = record s { peers = BTreeMap.modify fp without_trust s.peers } in
    let gone = modify-untrusted fp j without_trust s.peers (λ p r. refl) h in
    let done : untrusted j (persist writes after).0.peers ≡ true =
      persist-untrusted writes j after gone in
    ground arith
call-untrusted writes (hides fp) j s other h =
    let done = commit-untrusted writes (bury fp s.peers) j s (bury-untrusted fp j s.peers h) h in
    ground arith
call-untrusted writes hides_all j s other h =
    let done = commit-untrusted writes _ j s (bury_all-untrusted (targets_of s) j s.peers h) h in
    ground arith
call-untrusted writes (grants fp capability_id granted) j s other h =
    change-untrusted writes fp j _ s (λ p r. r) h
call-untrusted writes (sets_clipboard fp policy) j s other h =
    change-untrusted writes fp j _ s (λ p r. r) h
call-untrusted writes (sets_notification fp policy) j s other h =
    change-untrusted writes fp j _ s (λ p r. r) h
call-untrusted writes (records_version fp version) j s other h =
    change-untrusted writes fp j _ s (λ p r. ground arith) h

-- Calls one after another, each with whether its write succeeds.
unfoldable pub run : List (Bool × Call) → Store → Store
unfolding call
run [] s = s
run ((writes, c) ∷ rest) s = run rest (call writes c s).0

abbrev pub no_pairing : Fingerprint → List (Bool × Call) → Bool
no_pairing j cs = all (λ (x : Bool × Call). not (pairs j x.1)) cs

-- A device that is not trusted stays so, through any calls and any failed writes, until it is paired
-- again: neither granting, nor hiding, nor revoking another one brings it back.
pub run-stays_untrusted :
    (cs : List (Bool × Call)) (j : Fingerprint) (s : Store)
    → no_pairing j cs ≡ true
    → trusted_peer j s ≡ none
    → trusted_peer j (run cs s) ≡ none
unfolding run trusted_peer untrusted
run-stays_untrusted [] j s n h = h
run-stays_untrusted ((writes, c) ∷ cs) j s n h =
    let next = call-untrusted writes c j s (ground arith) (ground arith) in
    run-stays_untrusted cs j (call writes c s).0 (ground arith) (ground arith)

revoke_peer-untrusted :
    (writes : Bool) (fp : Fingerprint) (s : Store)
    → trusted_peer fp (revoke_peer writes fp s).0 ≡ none
unfolding trusted_peer revoke_peer
revoke_peer-untrusted writes fp s = elim (Option-cases (BTreeMap.get fp s.peers)) [
  | inl e ↦ rw (e, revoke_peer) (ground arith)
  | inr (p, e) ↦
      let after : Store = record s { peers = BTreeMap.modify fp without_trust s.peers } in
      rw (e, revoke_peer)
        (ground
          (arith, persist-peers writes after, get-modify fp fp without_trust s.peers, =?_refl fp))
]

-- A device that is revoked is not trusted after any calls that follow, until it is paired again; it
-- makes no difference whether the writes succeed.
pub run-after_revoke :
    (writes : Bool) (fp : Fingerprint) (cs : List (Bool × Call)) (s : Store)
    → no_pairing fp cs ≡ true
    → trusted_peer fp (run cs (revoke_peer writes fp s).0) ≡ none
run-after_revoke writes fp cs s n =
    run-stays_untrusted cs fp (revoke_peer writes fp s).0 n (revoke_peer-untrusted writes fp s)

-- Granting or withdrawing a capability of a trusted device changes what it is allowed of that
-- capability and of no other; the records of other devices are as they were.
pub set_capability_grant_lem :
    (writes : Bool) (fp : Fingerprint) (capability_id : Bytes) (granted : Bool) (s : Store)
    (p : TrustedPeer)
    → trusted_peer fp s ≡ some p
    → let s' = (set_capability_grant writes fp capability_id granted s).0 in
      (q : TrustedPeer) × (trusted_peer fp s' ≡ some q)
      × ((asked : Bytes)
          → allows asked q ≡ (if asked =? capability_id then granted else allows asked p))
      × ((j : Fingerprint) → (j =? fp) ≡ false → peer_record j s' ≡ peer_record j s)
unfolding trusted_peer set_capability_grant peer_record allows
set_capability_grant_lem writes fp capability_id granted s p h =
    let f = with_grant capability_id granted in
    let mine = get-change writes fp fp f s in
    let self = =?_refl fp in
    let held : BTreeMap.get fp s.peers ≡ some p = ground arith in
    let trusted : p.revoked ≡ false = ground arith in
    (
      f p,
      ground arith,
      λ asked. ground (arith, get-insert capability_id asked granted p.granted_capabilities),
      λ j other. ground (arith, get-change writes fp j f s),
    )
