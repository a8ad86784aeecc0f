-- ===== src/Store/Identity/Kept.antt =====
-- An identity that exists, or that cannot be read, is never replaced (store.rs, `classify`).
use anyflow.Prelude.{
  ◌≤◌, ◌≡◌, ◌↔◌, inl, inr, refl, true, not, Option, none, some, is_some, List, [], ◌∷◌,
  if◌then◌else◌, Bytes, ok, err, Option-cases, Bool-cases, subst, arith, ap, ◌∙◌, sym,
}
use anyflow.Store.Identity.{
  Platform, Item, StateFile, Resolution, create, load, refuse, schema_version, same_backing,
  check_document, refuse_access, classify_items, classify, Write, writes_secret, failed, initialize,
  resolve, open_with,
}

classify_items-create :
    (p : Platform) (state secret : Item)
    → classify_items p state secret ≡ create
    → (state ≡ ok none) × (secret ≡ ok none)
unfolding classify_items check_document refuse_access
classify_items-create p (err e) secret h = ground arith
classify_items-create p (ok state) (err e) h = ground arith
classify_items-create p (ok none) (ok none) h = (refl, refl)
classify_items-create p (ok (some s)) (ok none) h = cc
classify_items-create p (ok none) (ok (some k)) h = cc
classify_items-create p (ok (some s)) (ok (some k)) h = ground arith

resolve-writes :
    (p : Platform) (r : Resolution) (first : Write) (rest : List Write)
    → (resolve p r).0 ≡ first ∷ rest
    → (r ≡ create)
      × ((secret : Bytes) × ((p.create ≡ some secret) × (first ≡ writes_secret secret)))
unfolding resolve initialize
resolve-writes p (refuse state) first rest h = cc
resolve-writes p (load state_bytes secret) first rest h = cc
resolve-writes p create first rest h = elim (Option-cases p.create) [
  | inl n ↦ absurd (ground arith)
  | inr (secret, n) ↦ (refl, (secret, (n, ground arith)))
]

-- Opening the store writes something only if the storage was read without an error and holds
-- neither a state document nor a key; and then the new key comes first.
pub open_with_keeps :
    (p : Platform) (first : Write) (rest : List Write)
    → (open_with p).0 ≡ first ∷ rest
    → ((p.state_read ≡ ok none) × (p.secret_read ≡ ok none))
      × ((secret : Bytes) × ((p.create ≡ some secret) × (first ≡ writes_secret secret)))
unfolding open_with classify
open_with_keeps p first rest h = elim (Bool-cases p.hardened) [
  | inr soft ↦ absurd (ground arith)
  | inl hard ↦
      let written : (resolve p (classify p)).0 ≡ first ∷ rest =
        ap (λ b. (if not b then ([], failed) else resolve p (classify p)).0) (sym hard) ∙ h in
      let (creates, what) = resolve-writes p (classify p) first rest written in
      (classify_items-create p p.state_read p.secret_read creates, what)
]

-- What makes a document good to load.
pub record IsLoadable (p : Platform) (state_bytes : Bytes) : Type 0 where
  pub state : StateFile
  pub parses : p.parse state_bytes ≡ some state
  pub known_schema : state.schema_version ≤ schema_version
  pub openable : same_backing state.key_backing p.backing ≡ true
  pub certificate : is_some (p.decode_base64 state.certificate_der_b64) ≡ true

check_document-load :
    (p : Platform) (s k s' k' : Bytes) (o : Option StateFile)
    → p.parse s ≡ o
    → check_document p s k o ≡ load s' k'
    → (s ≡ s') × ((k ≡ k') × IsLoadable p s)
unfolding check_document
check_document-load p s k s' k' none e h = cc
check_document-load p s k s' k' (some state) e h = (
  ground arith,
  (
    ground arith,
    record {
      state = state;
      parses = e;
      known_schema = ground arith;
      openable = ground arith;
      certificate = ground arith;
    },
  ),
)

IsLoadable-load :
    (p : Platform) (s k : Bytes) (l : IsLoadable p s)
    → check_document p s k (some l.state) ≡ load s k
unfolding check_document
IsLoadable-load p s k l = ground (arith, l.known_schema, l.openable, l.certificate)

classify_items-load :
    (p : Platform) (a b : Item) (s k : Bytes)
    → classify_items p a b ≡ load s k
    → (a ≡ ok (some s)) × ((b ≡ ok (some k)) × IsLoadable p s)
unfolding classify_items refuse_access
classify_items-load p (err e) b s k h = absurd (ground arith)
classify_items-load p (ok a) (err e) s k h = absurd (ground arith)
classify_items-load p (ok none) (ok none) s k h = cc
classify_items-load p (ok (some s')) (ok none) s k h = cc
classify_items-load p (ok none) (ok (some k')) s k h = cc
classify_items-load p (ok (some s')) (ok (some k')) s k h =
    let (same_s, (same_k, l)) = check_document-load p s' k' s k (p.parse s') refl h in
    (ap (λ x. ok (some x)) same_s, (ap (λ x. ok (some x)) same_k, subst (IsLoadable p) same_s l))

-- An identity counts as available exactly when a document and a key were both read, the document
-- parses and is of no newer schema, its key has the protection that this build can open, and its
-- certificate decodes.
pub classify-load_iff :
    (p : Platform) (state_bytes secret : Bytes)
    → (classify p ≡ load state_bytes secret) ↔ (
        (p.state_read ≡ ok (some state_bytes))
        × ((p.secret_read ≡ ok (some secret)) × IsLoadable p state_bytes))
unfolding classify classify_items
classify-load_iff p state_bytes secret = (
  λ h. classify_items-load p p.state_read p.secret_read state_bytes secret h,
  λ (s, (k, l)).
      ap (λ x. classify_items p x p.secret_read) s
      ∙ (ap (classify_items p (ok (some state_bytes))) k
          ∙ (ap (check_document p state_bytes secret) l.parses
              ∙ IsLoadable-load p state_bytes secret l)),
)
