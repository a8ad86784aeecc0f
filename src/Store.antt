-- ===== src/Store.antt =====
-- desktop/core/src/store.rs: the devices this one trusts, with what each may do. The state document
-- is written by the platform, so whether a write succeeds is an argument of each call; what the
-- last one that succeeded says of the peers is part of the state. Identity and settings are left
-- out: no call on the peers reads or changes them.
pub mod Policy
pub mod Identity
pub mod Entries
pub mod Invariant
pub mod Trust
pub mod Hiding
pub mod Disk
pub mod Examples
use anyflow.Prelude.{
  ℕ, ◌≡◌, Bool, true, false, not, ◌&&◌, ltb, Option, none, some, List, [], ◌∷◌, map, keep,
  if◌then◌else◌, Bytes, bytes_key, ◌=?◌, Result, ok, err, ◌>>◌, is_nil,
}
use anyflow.Collections.BTreeMap
use anyflow.Collections.BTreeMap.{BTreeMap, values}
use anyflow.Store.Policy.{
  ClipboardPolicy, NotificationPolicy, clipboard_denied, notification_denied,
}

abbrev pub Fingerprint : Type 0
Fingerprint = Bytes

pub record TrustedPeer : Type 0 where
  pub device_id : Bytes
  pub device_name : Bytes
  pub platform : ℕ
  pub fingerprint : Fingerprint
  pub paired_at_unix : ℕ
  pub granted_capabilities : BTreeMap Bytes Bool
  pub last_protocol_version : ℕ
  pub revoked : Bool
  pub hidden : Bool
  pub clipboard_policy : ClipboardPolicy
  pub notification_policy : NotificationPolicy

abbrev unwrap_or : Option Bool → Bool → Bool
unwrap_or none b = b
unwrap_or (some b) _ = b

pub allows : Bytes → TrustedPeer → Bool
unfolding BTreeMap.get
allows capability_id p =
    not p.revoked && unwrap_or (BTreeMap.get capability_id p.granted_capabilities) false

abbrev pub is_listed : TrustedPeer → Bool
is_listed p = not p.hidden

abbrev pub into_tombstone : TrustedPeer → TrustedPeer
into_tombstone p = record {
  device_id = [];
  device_name = [];
  platform = 0;
  fingerprint = p.fingerprint;
  paired_at_unix = 0;
  granted_capabilities = [];
  last_protocol_version = 0;
  revoked = true;
  hidden = true;
  clipboard_policy = clipboard_denied;
  notification_policy = notification_denied;
}

pub data HideOutcome : Type 0 where
  hidden not_found not_revoked already_hidden : HideOutcome

abbrev pub Peers : Type 0
Peers = BTreeMap Fingerprint TrustedPeer

pub data StoreError : Type 0 where
  write_failed : StoreError

pub record Store : Type 0 where
  pub peers : Peers
  pub written : List TrustedPeer

pub persist : Bool → Store → Store × Result (Unit {0}) StoreError
persist writes s =
    if writes then (record s { written = values s.peers }, ok tt) else (s, err write_failed)

-- A hidden record is read as a revoked one.
abbrev pub mend : TrustedPeer → TrustedPeer
mend p = if p.hidden then record p { revoked = true } else p

-- `collect()` into the map: a later record replaces an earlier one.
collect : List TrustedPeer → Peers → Peers
unfolding BTreeMap.insert
collect [] m = m
collect (p ∷ ps) m = collect ps (BTreeMap.insert p.fingerprint (mend p) m)

-- `Store::load`, the peers
pub load : List TrustedPeer → Store
unfolding collect
load document = record { peers = collect document []; written = document }

pub listed_peers : Store → List TrustedPeer
listed_peers s = keep is_listed (values s.peers)

abbrev pub is_revoked_listed : TrustedPeer → Bool
is_revoked_listed p = p.revoked && is_listed p

pub revoked_listed_peers : Store → List TrustedPeer
revoked_listed_peers s = keep is_revoked_listed (values s.peers)

abbrev pub unless_revoked : Option TrustedPeer → Option TrustedPeer
unless_revoked none = none
unless_revoked (some p) = if p.revoked then none else some p

pub trusted_peer : Fingerprint → Store → Option TrustedPeer
unfolding BTreeMap.get
trusted_peer fp s = unless_revoked (BTreeMap.get fp s.peers)

pub peer_record : Fingerprint → Store → Option TrustedPeer
unfolding BTreeMap.get
peer_record fp s = BTreeMap.get fp s.peers

find_device : Bytes → List TrustedPeer → Option TrustedPeer
find_device device_id [] = none
find_device device_id (p ∷ ps) =
    if p.device_id =? device_id then some p else find_device device_id ps

pub find_by_device_id : Bytes → Store → Option TrustedPeer
unfolding find_device
find_by_device_id device_id s = find_device device_id (values s.peers)

pub add_peer : Bool → TrustedPeer → Store → Store × Result (Unit {0}) StoreError
unfolding persist BTreeMap.insert
add_peer writes p s = persist writes (record s { peers = BTreeMap.insert p.fingerprint p s.peers })

abbrev pub without_trust : TrustedPeer → TrustedPeer
without_trust p = record p {
  revoked = true;
  granted_capabilities = [];
  clipboard_policy = clipboard_denied;
  notification_policy = notification_denied;
}

pub revoke_peer : Bool → Fingerprint → Store → Store × Result Bool StoreError
unfolding persist BTreeMap.get BTreeMap.modify
revoke_peer writes fp s = elim (BTreeMap.get fp s.peers) [
  | none ↦ (s, ok false)
  | some p ↦
      let (s', r) =
        persist writes (record s { peers = BTreeMap.modify fp without_trust s.peers }) in
      (s', r >> ok true)
]

pub commit : Bool → Peers → Store → Store × Result (Unit {0}) StoreError
unfolding persist
commit writes next s =
    let (s', r) = persist writes (record s { peers = next }) in
    elim r [ ok u ↦ (s', ok tt) | err e ↦ (record s' { peers = s.peers }, err e) ]

abbrev pub hide_outcome : Option TrustedPeer → HideOutcome
hide_outcome none = not_found
hide_outcome (some p) =
    if not p.revoked then not_revoked else if p.hidden then already_hidden else hidden

-- `if let Some(p) = next.remove(fp) { next.insert(*fp, p.into_tombstone()); }`
pub bury : Fingerprint → Peers → Peers
unfolding BTreeMap.get BTreeMap.remove BTreeMap.insert
bury fp next = elim (BTreeMap.get fp next) [
  | none ↦ BTreeMap.remove fp next
  | some p ↦ BTreeMap.insert fp (into_tombstone p) (BTreeMap.remove fp next)
]

pub hide_revoked_peer : Bool → Fingerprint → Store → Store × Result HideOutcome StoreError
unfolding commit bury BTreeMap.get
hide_revoked_peer writes fp s = elim (hide_outcome (BTreeMap.get fp s.peers)) [
  | hidden ↦ let (s', r) = commit writes (bury fp s.peers) s in (s', r >> ok hidden)
  | not_found ↦ (s, ok not_found)
  | not_revoked ↦ (s, ok not_revoked)
  | already_hidden ↦ (s, ok already_hidden)
]

pub bury_all : List Fingerprint → Peers → Peers
unfolding bury
bury_all [] next = next
bury_all (fp ∷ targets) next = bury_all targets (bury fp next)

pub targets_of : Store → List Fingerprint
unfolding revoked_listed_peers
targets_of s = map (λ (p : TrustedPeer). p.fingerprint) (revoked_listed_peers s)

pub hide_all_revoked_peers : Bool → Store → Store × Result (List Fingerprint) StoreError
unfolding commit bury_all targets_of
hide_all_revoked_peers writes s =
    let targets = targets_of s in
    let (s', r) = commit writes (bury_all targets s.peers) s in
    if is_nil targets then (s, ok []) else (s', r >> ok targets)

-- `if let Some(p) = self.peers.get_mut(fp) { … } self.persist()`
pub change :
    Bool → Fingerprint → (TrustedPeer → TrustedPeer) → Store → Store × Result (Unit {0}) StoreError
unfolding persist BTreeMap.modify
change writes fp f s = persist writes (record s { peers = BTreeMap.modify fp f s.peers })

abbrev pub with_grant : Bytes → Bool → TrustedPeer → TrustedPeer
with_grant capability_id granted p = record p {
  granted_capabilities = BTreeMap.insert capability_id granted p.granted_capabilities;
}

pub set_capability_grant :
    Bool → Fingerprint → Bytes → Bool → Store → Store × Result (Unit {0}) StoreError
unfolding change
set_capability_grant writes fp capability_id granted =
    change writes fp (with_grant capability_id granted)

pub set_clipboard_policy :
    Bool → Fingerprint → ClipboardPolicy → Store → Store × Result (Unit {0}) StoreError
unfolding change
set_clipboard_policy writes fp policy =
    change writes fp (λ p. record p { clipboard_policy = policy })

pub set_notification_policy :
    Bool → Fingerprint → NotificationPolicy → Store → Store × Result (Unit {0}) StoreError
unfolding change
set_notification_policy writes fp policy =
    change writes fp (λ p. record p { notification_policy = policy })

abbrev pub at_least_version : ℕ → TrustedPeer → TrustedPeer
at_least_version version p =
    if ltb p.last_protocol_version version then record p { last_protocol_version = version } else p

pub record_protocol_version : Bool → Fingerprint → ℕ → Store → Store × Result (Unit {0}) StoreError
unfolding change
record_protocol_version writes fp version = change writes fp (at_least_version version)
