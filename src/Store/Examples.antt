-- ===== src/Store/Examples.antt =====
-- Two devices in the store of store.rs, one of them revoked.
use anyflow.Prelude.{
  ◌≡◌, refl, true, false, none, some, [], ◌∷◌, Bytes, bytes_key, cmp_bytes, ok, err, is_nil,
  if◌then◌else◌,
}
use anyflow.Collections.BTreeMap
use anyflow.Store.Identity.{Platform, software, open_with, writes_secret, writes_state}
use anyflow.Store.Identity.Kept.{open_with_keeps}
use anyflow.Store.Policy.{clipboard_default, clipboard_denied, notification_default}
use anyflow.Store.Invariant.{IsValid, revokes, hides, hides_all, grants, call, call-IsValid}
use anyflow.Store.Trust.{run, run-stays_untrusted}
use anyflow.Store.Hiding.{buried, hide_all_lem}
use anyflow.Store.Disk.{IsSaved, call-IsSaved, change_failed}
use anyflow.Store.{
  TrustedPeer, Store, write_failed, load, trusted_peer, peer_record, revoked_listed_peers,
  hide_all_revoked_peers, targets_of, set_capability_grant, set_clipboard_policy, without_trust,
  with_grant,
}

abbrev phone : TrustedPeer
phone = record {
  device_id = b'p' ∷ [];
  device_name = b'P' ∷ [];
  platform = 1;
  fingerprint = 1 ∷ [];
  paired_at_unix = 1700000000;
  granted_capabilities = (b'b' ∷ [], true) ∷ [];
  last_protocol_version = 1;
  revoked = false;
  hidden = false;
  clipboard_policy = clipboard_default;
  notification_policy = notification_default;
}

abbrev tablet : TrustedPeer
tablet = without_trust (record phone { fingerprint = 2 ∷ []; device_id = b't' ∷ [] })

abbrev store : Store
store = record { peers = (1 ∷ [], phone) ∷ (2 ∷ [], tablet) ∷ []; written = phone ∷ tablet ∷ [] }

store-IsValid : IsValid store.peers
unfolding cmp_bytes
store-IsValid = record { sorted = refl; sound = refl }

store-IsSaved : IsSaved store
unfolding IsSaved load cmp_bytes
store-IsSaved = refl

abbrev clipboard : Bytes
clipboard = b'c' ∷ []

call-IsValid_example : IsValid (call false hides_all store).0.peers
call-IsValid_example = call-IsValid false hides_all store refl store-IsValid

call-IsSaved_example : IsSaved (call true (revokes (1 ∷ [])) store).0
call-IsSaved_example = call-IsSaved (revokes (1 ∷ [])) store refl store-IsValid store-IsSaved

run-stays_untrusted_example :
    trusted_peer
      (2 ∷ [])
      (run ((true, grants (2 ∷ []) clipboard true) ∷ (false, hides (2 ∷ [])) ∷ []) store)
    ≡ none
unfolding trusted_peer BTreeMap.get cmp_bytes
run-stays_untrusted_example =
    run-stays_untrusted ((true, grants (2 ∷ []) clipboard true) ∷ (false, hides (2 ∷ [])) ∷ [])
      (2 ∷ []) store refl refl

hide_all_lem_example :
    let s' = (hide_all_revoked_peers true store).0 in
    ((hide_all_revoked_peers true store).1 ≡ ok (targets_of store))
    × ((j : Bytes) → peer_record j s' ≡ buried (peer_record j store))
    × (revoked_listed_peers s' ≡ [])
    × (hide_all_revoked_peers false store
        ≡ (store, if is_nil (targets_of store) then ok [] else err write_failed))
hide_all_lem_example = hide_all_lem store store-IsValid

change_failed_example :
    let granting = set_capability_grant false (1 ∷ []) clipboard true store in
    let setting = set_clipboard_policy false (1 ∷ []) clipboard_denied store in
    ((granting.1 ≡ err write_failed) × (setting.1 ≡ err write_failed))
    × ((granting.0.written ≡ store.written) × (setting.0.written ≡ store.written))
    × (peer_record (1 ∷ []) granting.0 ≡ some (with_grant clipboard true phone))
    × (peer_record (1 ∷ []) setting.0 ≡ some (record phone { clipboard_policy = clipboard_denied }))
unfolding peer_record BTreeMap.get cmp_bytes
change_failed_example = change_failed (1 ∷ []) phone store clipboard true clipboard_denied refl

-- A first run, and a platform that has both.
abbrev fresh : Platform
fresh = record {
  hardened = true;
  state_read = ok none;
  secret_read = ok none;
  parse = λ bytes.
      some (record { schema_version = 2; key_backing = software; certificate_der_b64 = [] });
  decode_base64 = λ text. some text;
  backing = software;
  create = some (7 ∷ []);
  secret_written = true;
  state_written = true;
  loads = λ state_bytes secret. true;
}

open_with_keeps_example :
    ((fresh.state_read ≡ ok none) × (fresh.secret_read ≡ ok none))
    × ((secret : Bytes) × ((fresh.create ≡ some secret)
          × (writes_secret (7 ∷ []) ≡ writes_secret secret)))
unfolding open_with
open_with_keeps_example = open_with_keeps fresh (writes_secret (7 ∷ [])) (writes_state ∷ []) refl
