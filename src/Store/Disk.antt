-- ===== src/Store/Disk.antt =====
-- The peers in memory and in the state document of store.rs: what is read back, and what a failed
-- write leaves behind.
use mathlib.Core.List.{append_assoc, append-nil}
use anyflow.Prelude.{
  ◌≡◌, refl, Bool, true, false, not, ◌&&◌, some, [], ◌∷◌, ◌++◌, all, =?_refl, =?_iff, bytes_key,
  Bytes, err, is_nil, if◌then◌else◌, arith, Bool-cases, Option-cases, inl, inr, ◌⊎◌, subst, ap, ◌∙◌,
  sym,
}
use anyflow.Collections.BTreeMap
use anyflow.Collections.BTreeMap.{BTreeMap, values, get-modify}
use anyflow.Collections.Sorted.{is_sorted, insert-last}
use anyflow.Store.Policy.{ClipboardPolicy}
use anyflow.Store.Invariant.{
  IsValid, is_sound, Call, adds, revokes, hides, hides_all, grants, sets_clipboard,
  sets_notification, records_version, call, may_call, call-IsValid,
}
use anyflow.Store.{
  Fingerprint, TrustedPeer, Peers, Store, write_failed, persist, load, collect, mend, commit,
  add_peer, revoke_peer, change, hide_revoked_peer, hide_all_revoked_peers, set_capability_grant,
  set_clipboard_policy, set_notification_policy, record_protocol_version, targets_of, peer_record,
  with_grant,
}

mend_sound : (fp : Fingerprint) (p : TrustedPeer) → is_sound (fp, p) ≡ true → mend p ≡ p
mend_sound fp p h =
    let shape : (b : Bool)
        → p.hidden ≡ b
        → mend p ≡ (if b then record p { revoked = true } else p) =
      λ b e. ap (λ c. if c then record p { revoked = true } else p) e in
    elim (Bool-cases p.hidden) [
      | inl e ↦
          let r : p.revoked ≡ true = ground arith in
          shape true e ∙ ap (λ b. record p { revoked = b }) (sym r)
      | inr e ↦ shape false e
    ]

collect-values :
    (m acc : Peers)
    → is_sorted (acc ++ m) ≡ true
    → all is_sound m ≡ true
    → collect (values m) acc ≡ acc ++ m
unfolding collect
collect-values [] acc h g = sym (append-nil acc)
collect-values ((fp, p) ∷ m) acc h g =
    let sound : is_sound (fp, p) ≡ true = ground arith in
    let same : fp ≡ p.fingerprint = ground (arith, =?_iff fp p.fingerprint) in
    let joined : (acc ++ (fp, p) ∷ []) ++ m ≡ acc ++ (fp, p) ∷ m =
      append_assoc acc ((fp, p) ∷ []) m in
    let placed : BTreeMap.insert p.fingerprint (mend p) acc ≡ acc ++ (fp, p) ∷ [] =
      ap (λ a. BTreeMap.insert a (mend p) acc) (sym same)
      ∙ ap (λ v. BTreeMap.insert fp v acc) (mend_sound fp p sound)
      ∙ insert-last fp p acc m h in
    ap (λ next. collect (values m) next) placed
    ∙ collect-values m (acc ++ (fp, p) ∷ []) (ap is_sorted joined ∙ h) (ground arith)
    ∙ joined

-- The peers that a start would read back are those in memory.
unfoldable pub IsSaved : Store → Type 0
unfolding load
IsSaved s = (load s.written).peers ≡ s.peers

wrote-IsSaved : (s : Store) → IsValid s.peers → s.written ≡ values s.peers → IsSaved s
unfolding IsSaved load
wrote-IsSaved s v w = ap (λ d. collect d []) w ∙ collect-values s.peers [] v.sorted v.sound

-- A call changes nothing, or writes what it leaves.
call-wrote :
    (c : Call) (s : Store)
    → ((call true c s).0 ≡ s) ⊎ ((call true c s).0.written ≡ values (call true c s).0.peers)
unfolding call add_peer revoke_peer change hide_revoked_peer hide_all_revoked_peers commit persist
    set_capability_grant set_clipboard_policy set_notification_policy record_protocol_version
call-wrote (adds p) s = inr refl
call-wrote (revokes fp) s = elim (Option-cases (BTreeMap.get fp s.peers)) [
  | inl e ↦ inl (ground arith)
  | inr (p, e) ↦ inr (ground arith)
]
call-wrote (hides fp) s = elim (Option-cases (BTreeMap.get fp s.peers)) [
  | inl e ↦ inl (ground arith)
  | inr (p, e) ↦ elim (Bool-cases (p.revoked && not p.hidden)) [
    | inl f ↦ inr (ground arith)
    | inr f ↦ inl (ground arith)
  ]
]
call-wrote hides_all s = elim (Bool-cases (is_nil (targets_of s))) [
  | inl e ↦ inl (ground arith)
  | inr e ↦ inr (ground arith)
]
call-wrote (grants fp capability_id granted) s = inr refl
call-wrote (sets_clipboard fp policy) s = inr refl
call-wrote (sets_notification fp policy) s = inr refl
call-wrote (records_version fp version) s = inr refl

-- On a well-formed store, a call whose write succeeds leaves on disk what is in memory: a start would
-- read back the very peers, if it would have before. The call that adds a peer whose record is hidden
-- and trusted at once is left out.
pub call-IsSaved :
    (c : Call) (s : Store)
    → may_call c ≡ true
    → IsValid s.peers
    → IsSaved s
    → IsSaved (call true c s).0
call-IsSaved c s may v w = elim (call-wrote c s) [
  | inl e ↦ subst IsSaved (sym e) w
  | inr e ↦ wrote-IsSaved (call true c s).0 (call-IsValid true c s may v) e
]

-- When the write of a new policy or grant fails, the call fails and the document keeps the old
-- record, but the one in memory has the change.
pub change_failed :
    (fp : Fingerprint) (p : TrustedPeer) (s : Store) (capability_id : Bytes) (granted : Bool)
    (policy : ClipboardPolicy)
    → peer_record fp s ≡ some p
    → let granting = set_capability_grant false fp capability_id granted s in
      let setting = set_clipboard_policy false fp policy s in
      ((granting.1 ≡ err write_failed) × (setting.1 ≡ err write_failed))
      × ((granting.0.written ≡ s.written) × (setting.0.written ≡ s.written))
      × (peer_record fp granting.0 ≡ some (with_grant capability_id granted p))
      × (peer_record fp setting.0 ≡ some (record p { clipboard_policy = policy }))
unfolding set_capability_grant set_clipboard_policy peer_record change persist
change_failed fp p s capability_id granted policy h =
    let policed : TrustedPeer → TrustedPeer = λ p. record p { clipboard_policy = policy } in
    (
      (refl, refl),
      (refl, refl),
      ground (arith, get-modify fp fp (with_grant capability_id granted) s.peers, =?_refl fp),
      ground (arith, get-modify fp fp policed s.peers, =?_refl fp),
    )
