-- ===== src/Store/Hiding.antt =====
-- Hiding revoked devices in store.rs: one of them, or all at once.
use mathlib.Core.Option
use anyflow.Prelude.{
  ◌≡◌, refl, Bool, true, false, Option, none, some, List, [], ◌∷◌, map, keep, any, ◌=?◌, =?_refl,
  =?_iff, bytes_key, ok, err, is_nil, if◌then◌else◌, arith, Bool-cases, Option-cases, inl, inr,
}
use anyflow.Collections.BTreeMap
use anyflow.Collections.BTreeMap.{BTreeMap, values}
use anyflow.Collections.Sorted.{get-above}
use anyflow.Store.Entries.{get-bury}
use anyflow.Store.Invariant.{IsValid, bury_all-IsValid}
use anyflow.Store.{
  Fingerprint, TrustedPeer, Peers, Store, write_failed, hidden, is_revoked_listed,
  revoked_listed_peers, peer_record, persist, commit, bury, bury_all, hide_outcome,
  hide_revoked_peer, hide_all_revoked_peers, targets_of, into_tombstone,
}

-- What is to become of the record of a device.
abbrev pub buried : Option TrustedPeer → Option TrustedPeer
buried none = none
buried (some p) = if is_revoked_listed p then some (into_tombstone p) else some p

-- Hiding one device reports what its record says. Only a revoked one that is listed is changed: it
-- becomes the tombstone of its record, and no other record changes. If the write fails, the store
-- is as it was, and the call fails.
pub hide_revoked_peer_lem :
    (fp : Fingerprint) (s : Store)
    → let before = peer_record fp s in
      ((hide_revoked_peer true fp s).1 ≡ ok (hide_outcome before))
      × ((j : Fingerprint)
          → peer_record j (hide_revoked_peer true fp s).0
            ≡ (if j =? fp then buried before else peer_record j s))
      × (hide_revoked_peer false fp s
          ≡ (s, elim (hide_outcome before) [ hidden ↦ err write_failed | o ↦ ok o ]))
unfolding hide_revoked_peer peer_record commit persist
hide_revoked_peer_lem fp s = elim (Option-cases (BTreeMap.get fp s.peers)) [
  | inl e ↦ (ground arith, λ j. ground (arith, =?_iff j fp), ground arith)
  | inr (p, e) ↦
      (ground arith, λ j. ground (arith, =?_iff j fp, get-bury fp j s.peers), ground arith)
]

abbrev wanted : Option TrustedPeer → Bool
wanted none = false
wanted (some p) = is_revoked_listed p

abbrev prints : Peers → List Fingerprint
prints m = map (λ (p : TrustedPeer). p.fingerprint) (keep is_revoked_listed (values m))

-- The fingerprints that are collected are those of the records that are wanted.
any-prints :
    (j : Fingerprint) (m : Peers)
    → IsValid m
    → any (λ fp. j =? fp) (prints m) ≡ wanted (BTreeMap.get j m)
unfolding BTreeMap.get
any-prints j [] v = refl
any-prints j ((fp, p) ∷ m) v =
    let rest : IsValid m = record {
      sorted = ground (arith, v.sorted);
      sound = ground (arith, v.sound);
    } in
    ground (
      arith,
      any-prints j m rest,
      =?_iff j fp,
      =?_iff fp p.fingerprint,
      =?_iff j p.fingerprint,
      get-above j m,
      v.sorted,
      v.sound,
    )

get-bury_all :
    (fps : List Fingerprint) (j : Fingerprint) (m : Peers)
    → BTreeMap.get j (bury_all fps m) ≡ (
        if any (λ fp. j =? fp) fps
        then Option.map into_tombstone (BTreeMap.get j m)
        else BTreeMap.get j m)
unfolding bury_all
get-bury_all [] j m = refl
get-bury_all (fp ∷ fps) j m = elim (Option-cases (BTreeMap.get j m)) [
  | inl e ↦ ground (arith, get-bury_all fps j (bury fp m), get-bury fp j m)
  | inr (p, e) ↦ ground (arith, get-bury_all fps j (bury fp m), get-bury fp j m)
]

none_wanted :
    (m : Peers)
    → IsValid m
    → ((j : Fingerprint) → wanted (BTreeMap.get j m) ≡ false)
    → keep is_revoked_listed (values m) ≡ []
unfolding BTreeMap.get
none_wanted [] v h = refl
none_wanted ((fp, p) ∷ m) v h =
    let rest : IsValid m = record {
      sorted = ground (arith, v.sorted);
      sound = ground (arith, v.sound);
    } in
    let less : (j : Fingerprint) → wanted (BTreeMap.get j m) ≡ false =
      λ j. ground (arith, h j, =?_iff j fp, get-above fp m, v.sorted) in
    let unwanted = h fp in ground (arith, none_wanted m rest less, =?_refl fp)

buried-wanted : (o : Option TrustedPeer) → wanted (buried o) ≡ false
buried-wanted none = refl
buried-wanted (some p) = ground arith

get-hidden_all :
    (j : Fingerprint) (s : Store)
    → IsValid s.peers
    → BTreeMap.get j (bury_all (targets_of s) s.peers) ≡ buried (BTreeMap.get j s.peers)
unfolding targets_of revoked_listed_peers
get-hidden_all j s v = elim (Option-cases (BTreeMap.get j s.peers)) [
  | inl e ↦ ground (arith, get-bury_all (targets_of s) j s.peers, any-prints j s.peers v)
  | inr (p, e) ↦ ground (arith, get-bury_all (targets_of s) j s.peers, any-prints j s.peers v)
]

is_nil-bury : (fps : List Fingerprint) (m : Peers) → is_nil fps ≡ true → bury_all fps m ≡ m
unfolding bury_all
is_nil-bury [] m e = refl
is_nil-bury (fp ∷ fps) m e = cc

is_nil-to_eq : (fps : List Fingerprint) → is_nil fps ≡ true → fps ≡ []
is_nil-to_eq [] e = refl
is_nil-to_eq (fp ∷ fps) e = cc

-- A write with nothing to hide would leave the peers as they are.
hide_all-shape :
    (s : Store)
    → ((hide_all_revoked_peers true s).0.peers ≡ bury_all (targets_of s) s.peers)
      × ((hide_all_revoked_peers true s).1 ≡ ok (targets_of s))
unfolding hide_all_revoked_peers commit persist
hide_all-shape s = elim (Bool-cases (is_nil (targets_of s))) [
  | inl e ↦ (
    ground (arith, is_nil-bury (targets_of s) s.peers),
    ground (arith, is_nil-to_eq (targets_of s)),
  )
  | inr e ↦ (ground arith, ground arith)
]

hide_all-failed :
    (s : Store)
    → hide_all_revoked_peers false s
      ≡ (s, if is_nil (targets_of s) then ok [] else err write_failed)
unfolding hide_all_revoked_peers commit persist
hide_all-failed s = elim (Bool-cases (is_nil (targets_of s))) [
  | inl e ↦ rw (e, hide_all_revoked_peers) refl
  | inr e ↦ rw (e, hide_all_revoked_peers) refl
]

-- Hiding every revoked device answers the fingerprints of those that were listed, leaves a
-- tombstone in the place of each, every other record as it was, and none for the next call. If the
-- write fails, the store is as it was, and the call fails unless there was none.
pub hide_all_lem :
    (s : Store)
    → IsValid s.peers
    → let s' = (hide_all_revoked_peers true s).0 in
      ((hide_all_revoked_peers true s).1 ≡ ok (targets_of s))
      × ((j : Fingerprint) → peer_record j s' ≡ buried (peer_record j s))
      × (revoked_listed_peers s' ≡ [])
      × (hide_all_revoked_peers false s
          ≡ (s, if is_nil (targets_of s) then ok [] else err write_failed))
unfolding peer_record revoked_listed_peers
hide_all_lem s v =
    let next = bury_all (targets_of s) s.peers in
    let valid = bury_all-IsValid (targets_of s) s.peers v in
    let gone : (j : Fingerprint) → wanted (BTreeMap.get j next) ≡ false =
      λ j. rw (get-hidden_all j s v) (buried-wanted (BTreeMap.get j s.peers)) in
    let (peers, answer) = hide_all-shape s in
    (
      answer,
      λ j. rw (peers, peer_record) (get-hidden_all j s v),
      rw (peers, revoked_listed_peers) (none_wanted next valid gone),
      hide_all-failed s,
    )
