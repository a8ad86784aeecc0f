-- ===== src/Store/Identity.antt =====
-- desktop/core/src/store.rs, opening the store: whether there is an identity to load, none yet, or
-- one that must not be replaced. What the platform's storage and the crates say comes in as
-- `Platform`. The texts of the messages are left out.
pub mod Kept
use anyflow.Prelude.{
  ℕ, Bool, true, false, not, Option, none, some, is_some, List, [], ◌∷◌, ltb, if◌then◌else◌, Bytes,
  Result, ok, err,
}

pub data KeyBacking : Type 0 where
  software tpm secure_enclave : KeyBacking
  keystore : Bool → KeyBacking

-- `==` of `KeyBacking`
unfoldable pub same_backing : KeyBacking → KeyBacking → Bool
same_backing software software = true
same_backing tpm tpm = true
same_backing secure_enclave secure_enclave = true
same_backing (keystore true) (keystore true) = true
same_backing (keystore false) (keystore false) = true
same_backing _ _ = false

pub data StoreAccessError : Type 0 where
  permission_denied not_private io corrupted_item : StoreAccessError

pub data IdentityState : Type 0 where
  not_created available temporarily_unavailable hardware_unavailable corrupted lost : IdentityState

-- The fields that the classification reads.
pub record StateFile : Type 0 where
  pub schema_version : ℕ
  pub key_backing : KeyBacking
  pub certificate_der_b64 : Bytes

abbrev pub schema_version : ℕ
schema_version = 2

abbrev pub Item : Type 0
Item = Result (Option Bytes) StoreAccessError

pub record Platform : Type 0 where
  pub hardened : Bool
  pub state_read : Item
  pub secret_read : Item
  -- `serde_json::from_slice` and `BASE64.decode`
  pub parse : Bytes → Option StateFile
  pub decode_base64 : Bytes → Option Bytes
  pub backing : KeyBacking
  -- The new secret, and the writes of it and of the first state document.
  pub create : Option Bytes
  pub secret_written : Bool
  pub state_written : Bool
  -- `load`, past the classification
  pub loads : Bytes → Bytes → Bool

pub data Resolution : Type 0 where
  create : Resolution
  load : Bytes → Bytes → Resolution
  refuse : IdentityState → Resolution

unfoldable pub refuse_access : StoreAccessError → Resolution
refuse_access not_private = refuse corrupted
refuse_access permission_denied = refuse lost
refuse_access io = refuse temporarily_unavailable
refuse_access corrupted_item = refuse corrupted

unfoldable pub check_document : Platform → Bytes → Bytes → Option StateFile → Resolution
check_document p state_bytes secret none = refuse corrupted
check_document p state_bytes secret (some state) =
    if ltb schema_version state.schema_version
    then refuse corrupted
    else if not (same_backing state.key_backing p.backing)
    then refuse hardware_unavailable
    else if not (is_some (p.decode_base64 state.certificate_der_b64))
    then refuse corrupted
    else load state_bytes secret

unfoldable pub classify_items : Platform → Item → Item → Resolution
unfolding check_document refuse_access
classify_items p (err e) secret = refuse_access e
classify_items p (ok state) (err e) = refuse_access e
classify_items p (ok none) (ok none) = create
classify_items p (ok (some state_bytes)) (ok none) = refuse lost
classify_items p (ok none) (ok (some secret)) = refuse lost
classify_items p (ok (some state_bytes)) (ok (some secret)) =
    check_document p state_bytes secret (p.parse state_bytes)

unfoldable pub classify : Platform → Resolution
unfolding classify_items
classify p = classify_items p p.state_read p.secret_read

pub probe_identity : Platform → IdentityState
unfolding classify
probe_identity p = elim (classify p) [
  | create ↦ not_created
  | load state_bytes secret ↦ available
  | refuse state ↦ state
]

pub data Write : Type 0 where
  writes_secret : Bytes → Write
  writes_state : Write

pub data Opened : Type 0 where
  opened : Opened
  failed : Opened
  refused : IdentityState → Opened

-- The key material first, the state document second.
unfoldable pub initialize : Platform → List Write × Opened
initialize p = elim p.create [
  | none ↦ ([], failed)
  | some secret ↦
      if not p.secret_written
      then (writes_secret secret ∷ [], failed)
      else (writes_secret secret ∷ writes_state ∷ [], if p.state_written then opened else failed)
]

unfoldable pub resolve : Platform → Resolution → List Write × Opened
unfolding initialize
resolve p (refuse state) = ([], refused state)
resolve p create = initialize p
resolve p (load state_bytes secret) = ([], if p.loads state_bytes secret then opened else failed)

-- What it tries to write, in order, and how it ends.
unfoldable pub open_with : Platform → List Write × Opened
unfolding classify resolve
open_with p = if not p.hardened then ([], failed) else resolve p (classify p)
