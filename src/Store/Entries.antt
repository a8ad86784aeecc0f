-- ===== src/Store/Entries.antt =====
-- What holds of every entry of a map, through the calls that change it; and the record of each
-- device behind `bury` and `commit` of store.rs.
use mathlib.Core.Option
use anyflow.Prelude.{
  ◌≡◌, refl, Bool, true, false, some, [], ◌∷◌, all, if◌then◌else◌, Key, ◌=?◌, =?_iff, arith,
  Option-cases, inl, inr, bytes_key, is_ok,
}
use anyflow.Collections.BTreeMap
use anyflow.Collections.BTreeMap.{BTreeMap, get-insert, get-remove, get-modify}
use anyflow.Store.{
  Fingerprint, TrustedPeer, Peers, Store, persist, commit, bury, change, into_tombstone,
}

module _ {ℓ κ} {K : Type ℓ} {V : Type κ} ⦃k : Key K⦄ (q : K × V → Bool) where
  pub all-insert :
      (a : K) (v : V) (m : BTreeMap K V)
      → q (a, v) ≡ true
      → all q m ≡ true
      → all q (BTreeMap.insert a v m) ≡ true
  unfolding BTreeMap.insert
  all-insert a v [] x h = ground arith
  all-insert a v ((b, w) ∷ m) x h = ground (arith, all-insert a v m)

  pub all-remove : (a : K) (m : BTreeMap K V) → all q m ≡ true → all q (BTreeMap.remove a m) ≡ true
  unfolding BTreeMap.remove
  all-remove a [] h = refl
  all-remove a ((b, w) ∷ m) h = ground (arith, all-remove a m)

  pub all-modify :
      (a : K) (f : V → V) (m : BTreeMap K V)
      → ((b : K) (v : V) → q (b, v) ≡ true → q (b, f v) ≡ true)
      → all q m ≡ true
      → all q (BTreeMap.modify a f m) ≡ true
  unfolding BTreeMap.modify
  all-modify a f [] keeps h = refl
  all-modify a f ((b, w) ∷ m) keeps h = ground (arith, keeps b w, all-modify a f m keeps)

  pub all-get :
      (a : K) (v : V) (m : BTreeMap K V)
      → all q m ≡ true
      → BTreeMap.get a m ≡ some v
      → q (a, v) ≡ true
  unfolding BTreeMap.get
  all-get a v [] h g = cc
  all-get a v ((b, w) ∷ m) h g = ground (arith, =?_iff a b, all-get a v m)

pub persist-peers : (writes : Bool) (s : Store) → (persist writes s).0.peers ≡ s.peers
unfolding persist
persist-peers true s = refl
persist-peers false s = refl

pub get-bury :
    (fp j : Fingerprint) (m : Peers)
    → BTreeMap.get j (bury fp m)
      ≡ (if j =? fp then Option.map into_tombstone (BTreeMap.get j m) else BTreeMap.get j m)
unfolding bury
get-bury fp j m = elim (Option-cases (BTreeMap.get fp m)) [
  | inl e ↦ rw (e, bury) (ground (arith, get-remove fp j m, =?_iff j fp))
  | inr (p, e) ↦
      rw (e, bury)
        (ground (
          arith,
          get-remove fp j m,
          =?_iff j fp,
          get-insert fp j (into_tombstone p) (BTreeMap.remove fp m),
        ))
]

pub commit_written :
    (next : Peers) (s : Store)
    → ((commit true next s).0.peers ≡ next) × (is_ok (commit true next s).1 ≡ true)
unfolding commit persist
commit_written next s = (refl, refl)

pub commit_failed :
    (next : Peers) (s : Store)
    → ((commit false next s).0 ≡ s) × (is_ok (commit false next s).1 ≡ false)
unfolding commit persist
commit_failed next s = (refl, refl)

pub get-change :
    (writes : Bool) (fp j : Fingerprint) (f : TrustedPeer → TrustedPeer) (s : Store)
    → BTreeMap.get j (change writes fp f s).0.peers
      ≡ (if j =? fp then Option.map f (BTreeMap.get j s.peers) else BTreeMap.get j s.peers)
unfolding change
get-change writes fp j f s =
    rw (persist-peers writes (record s { peers = BTreeMap.modify fp f s.peers }))
      (get-modify fp j f s.peers)
