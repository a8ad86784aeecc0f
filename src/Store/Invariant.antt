-- ===== src/Store/Invariant.antt =====
-- Every call on the peers of store.rs keeps them in key order, each under its own fingerprint, and
-- no hidden one trusted.
use anyflow.Prelude.{
  ℕ, ◌≡◌, Bool, true, false, not, ◌&&◌, ◌||◌, List, [], ◌∷◌, all, ◌=?◌, =?_refl, Bytes, bytes_key,
  Result, forget, is_nil, arith, Bool-cases, Option-cases, inl, inr,
}
use anyflow.Collections.BTreeMap
use anyflow.Collections.BTreeMap.{BTreeMap}
use anyflow.Collections.Sorted.{is_sorted, is_sorted-insert, is_sorted-remove, is_sorted-modify}
use anyflow.Store.Policy.{ClipboardPolicy, NotificationPolicy}
use anyflow.Store.Entries.{all-insert, all-remove, all-modify, all-get, persist-peers}
use anyflow.Store.{
  Fingerprint, TrustedPeer, Peers, Store, StoreError, persist, add_peer, revoke_peer, without_trust,
  commit, bury, bury_all, hide_revoked_peer, hide_all_revoked_peers, targets_of, change,
  set_capability_grant, set_clipboard_policy, set_notification_policy, record_protocol_version,
  into_tombstone,
}

-- The calls that change the peers.
pub data Call : Type 0 where
  adds : TrustedPeer → Call
  revokes : Fingerprint → Call
  hides : Fingerprint → Call
  hides_all : Call
  grants : Fingerprint → Bytes → Bool → Call
  sets_clipboard : Fingerprint → ClipboardPolicy → Call
  sets_notification : Fingerprint → NotificationPolicy → Call
  records_version : Fingerprint → ℕ → Call

pair_forget : {A : Type 0} → Store × Result A StoreError → Store × Result (Unit {0}) StoreError
pair_forget (s, r) = (s, forget r)

unfoldable pub call : Bool → Call → Store → Store × Result (Unit {0}) StoreError
unfolding pair_forget
call writes (adds p) s = add_peer writes p s
call writes (revokes fp) s = pair_forget (revoke_peer writes fp s)
call writes (hides fp) s = pair_forget (hide_revoked_peer writes fp s)
call writes hides_all s = pair_forget (hide_all_revoked_peers writes s)
call writes (grants fp capability_id granted) s =
    set_capability_grant writes fp capability_id granted s
call writes (sets_clipboard fp policy) s = set_clipboard_policy writes fp policy s
call writes (sets_notification fp policy) s = set_notification_policy writes fp policy s
call writes (records_version fp version) s = record_protocol_version writes fp version s

abbrev pub is_sound : Fingerprint × TrustedPeer → Bool
is_sound (fp, p) = fp =? p.fingerprint && (not p.hidden || p.revoked)

pub record IsValid (m : Peers) : Type 0 where
  pub sorted : is_sorted m ≡ true
  pub sound : all is_sound m ≡ true

-- A new peer that is not hidden comes in sound.
abbrev pub may_call : Call → Bool
may_call (adds p) = not p.hidden || p.revoked
may_call _ = true

pub insert-IsValid :
    (p : TrustedPeer) (m : Peers)
    → (not p.hidden || p.revoked) ≡ true
    → IsValid m
    → IsValid (BTreeMap.insert p.fingerprint p m)
insert-IsValid p m h v = record {
  sorted = is_sorted-insert p.fingerprint p m v.sorted;
  sound = all-insert is_sound p.fingerprint p m (ground (arith, =?_refl p.fingerprint)) v.sound;
}

modify-IsValid :
    (fp : Fingerprint) (f : TrustedPeer → TrustedPeer) (m : Peers)
    → ((b : Fingerprint) (p : TrustedPeer) → is_sound (b, p) ≡ true → is_sound (b, f p) ≡ true)
    → IsValid m
    → IsValid (BTreeMap.modify fp f m)
modify-IsValid fp f m keeps v = record {
  sorted = ground (arith, is_sorted-modify fp f m, v.sorted);
  sound = all-modify is_sound fp f m keeps v.sound;
}

bury-IsValid : (fp : Fingerprint) (m : Peers) → IsValid m → IsValid (bury fp m)
unfolding bury
bury-IsValid fp m v = elim (Option-cases (BTreeMap.get fp m)) [
  | inl e ↦
      rw (e, bury)
        record { sorted = is_sorted-remove fp m v.sorted; sound = all-remove is_sound fp m v.sound }
  | inr (p, e) ↦
      rw (e, bury)
        record {
          sorted =
              is_sorted-insert fp (into_tombstone p) (BTreeMap.remove fp m)
                (is_sorted-remove fp m v.sorted);
          sound =
              all-insert is_sound fp (into_tombstone p) (BTreeMap.remove fp m)
                (ground (arith, all-get is_sound fp p m v.sound e))
                (all-remove is_sound fp m v.sound);
        }
]

pub bury_all-IsValid : (fps : List Fingerprint) (m : Peers) → IsValid m → IsValid (bury_all fps m)
unfolding bury_all
bury_all-IsValid [] m v = v
bury_all-IsValid (fp ∷ fps) m v = bury_all-IsValid fps (bury fp m) (bury-IsValid fp m v)

persist-IsValid : (writes : Bool) (s : Store) → IsValid s.peers → IsValid (persist writes s).0.peers
persist-IsValid writes s v = rw (persist-peers writes s) v

commit-IsValid :
    (writes : Bool) (next : Peers) (s : Store)
    → IsValid next
    → IsValid s.peers
    → IsValid (commit writes next s).0.peers
unfolding commit persist
commit-IsValid true next s v w = v
commit-IsValid false next s v w = w

change-IsValid :
    (writes : Bool) (fp : Fingerprint) (f : TrustedPeer → TrustedPeer) (s : Store)
    → ((b : Fingerprint) (p : TrustedPeer) → is_sound (b, p) ≡ true → is_sound (b, f p) ≡ true)
    → IsValid s.peers
    → IsValid (change writes fp f s).0.peers
unfolding change
change-IsValid writes fp f s keeps v =
    persist-IsValid writes _ (modify-IsValid fp f s.peers keeps v)

hide-IsValid :
    (writes : Bool) (fp : Fingerprint) (s : Store)
    → IsValid s.peers
    → IsValid (hide_revoked_peer writes fp s).0.peers
unfolding hide_revoked_peer
hide-IsValid writes fp s v =
    let done = commit-IsValid writes (bury fp s.peers) s (bury-IsValid fp s.peers v) v in
    ground arith

-- Every call keeps the peers in key order, each under its own fingerprint, and every hidden one
-- revoked, whether its write succeeds or not; `add_peer` does when the new peer is not both hidden
-- and trusted.
pub call-IsValid :
    (writes : Bool) (c : Call) (s : Store)
    → may_call c ≡ true
    → IsValid s.peers
    → IsValid (call writes c s).0.peers
unfolding call add_peer revoke_peer hide_all_revoked_peers set_capability_grant set_clipboard_policy
    set_notification_policy record_protocol_version
call-IsValid writes (adds p) s may v = persist-IsValid writes _ (insert-IsValid p s.peers may v)
call-IsValid writes (revokes fp) s may v = elim (Option-cases (BTreeMap.get fp s.peers)) [
  | inl e ↦ rw (e, call, revoke_peer) v
  | inr (p, e) ↦
      rw (e, call, revoke_peer)
        (persist-IsValid writes _
          (modify-IsValid fp without_trust s.peers (λ b x h. ground arith) v))
]
call-IsValid writes (hides fp) s may v = hide-IsValid writes fp s v
call-IsValid writes hides_all s may v =
    let next = bury_all-IsValid (targets_of s) s.peers v in
    let done = commit-IsValid writes (bury_all (targets_of s) s.peers) s next v in
    elim (Bool-cases (is_nil (targets_of s))) [
      | inl e ↦ rw (e, call, hide_all_revoked_peers) v
      | inr e ↦ rw (e, call, hide_all_revoked_peers) done
    ]
call-IsValid writes (grants fp capability_id granted) s may v =
    change-IsValid writes fp _ s (λ b p h. h) v
call-IsValid writes (sets_clipboard fp policy) s may v = change-IsValid writes fp _ s (λ b p h. h) v
call-IsValid writes (sets_notification fp policy) s may v =
    change-IsValid writes fp _ s (λ b p h. h) v
call-IsValid writes (records_version fp version) s may v =
    change-IsValid writes fp _ s (λ b p h. ground arith) v
