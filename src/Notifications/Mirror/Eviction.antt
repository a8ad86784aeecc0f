-- ===== src/Notifications/Mirror/Eviction.antt =====
-- What `MirrorTable::insert` of mirror.rs puts in, evicts and leaves alone.
use anyflow.Prelude.{
  ◌≤◌, ◌<◌, ◌≡◌, refl, ◌∙◌, ap, =?_iff, =?_refl, Bool, true, false, Option, none, some, [], ◌∷◌,
  arith, if◌then◌else◌, ◌=?◌, Bool-cases, Option-cases, inl, inr,
}
use anyflow.Collections.BTreeMap
use anyflow.Collections.BTreeMap.{BTreeMap, get-insert, get-remove}
use anyflow.Notifications.Id.{NotificationId, id_key}
use anyflow.Notifications.Mirror.Table.{IsValid, oldest-get, oldest-ne-none}
use anyflow.Notifications.Mirror.{
  MirrorEntry, MirrorTable, Named, Shown, max_mirrors_per_peer, oldest, entry_of, evict_if_full,
  contains, get, len, store, insert,
}

-- Whether the entry handed back by `insert` is that of `j`.
abbrev pub was_evicted : NotificationId → Option Named → Bool
was_evicted j none = false
was_evicted j (some (id, e)) = j =? id

evict-get :
    (t : MirrorTable) (j : NotificationId)
    → IsValid t
    → BTreeMap.get j (evict_if_full t).0.entries
      ≡ (if was_evicted j (evict_if_full t).1 then none else BTreeMap.get j t.entries)
unfolding evict_if_full
evict-get t j v = elim (Option-cases (oldest t.entries)) [
  | inl n ↦ ground arith
  | inr ((id, e), n) ↦
      ground (arith, oldest-get t.entries id e v.sorted n, get-remove id j t.entries)
]

evict-next_seq : (t : MirrorTable) → (evict_if_full t).0.next_seq ≡ t.next_seq
unfolding evict_if_full
evict-next_seq t = ground arith

-- After `insert`, an identity has the new entry if it is the one inserted, none if it was evicted,
-- and what it had before otherwise.
pub get-insert_table :
    (t : MirrorTable) (id j : NotificationId) (n : Shown)
    → IsValid t
    → get j (insert t id n).0 ≡ (
        if j =? id
        then some (entry_of n t.next_seq)
        else if was_evicted j (insert t id n).1
        then none
        else get j t)
unfolding get insert store contains
get-insert_table t id j n v = elim (Bool-cases (contains id t)) [
  | inl held ↦ rw (held, insert) (get-insert id j (entry_of n t.next_seq) t.entries)
  | inr new_one ↦
      rw (new_one, insert)
        (ground (
          arith,
          get-insert id j (entry_of n (evict_if_full t).0.next_seq) (evict_if_full t).0.entries,
          evict-get t j v,
          evict-next_seq t,
        ))
]

get-oldest-none :
    (m : BTreeMap NotificationId MirrorEntry) (j : NotificationId)
    → oldest m ≡ none
    → BTreeMap.get j m ≡ none
unfolding oldest BTreeMap.get
get-oldest-none [] j o = refl
get-oldest-none (x ∷ m) j o = cc

oldest-least :
    (m : BTreeMap NotificationId MirrorEntry) (id j : NotificationId) (e f : MirrorEntry)
    → oldest m ≡ some (id, e)
    → BTreeMap.get j m ≡ some f
    → e.seq ≤ f.seq
unfolding oldest BTreeMap.get
oldest-least [] id j e f o g = cc
oldest-least ((i, x) ∷ m) id j e f o g = elim (Option-cases (oldest m)) [
  | inl n ↦ ground (arith, get-oldest-none m j n)
  | inr ((k, y), n) ↦ ground (arith, oldest-least m k j y f n)
]

unevicted :
    (t : MirrorTable) (id o : NotificationId) (e : MirrorEntry)
    → contains id t ≡ false
    → BTreeMap.get o t.entries ≡ some e
    → (o =? id) ≡ false
unfolding contains BTreeMap.contains_key
unevicted t id o e new_one held = elim (Bool-cases (o =? id)) [
  | inr other ↦ other
  | inl same ↦
      let it : BTreeMap.get o t.entries ≡ BTreeMap.get id t.entries =
        ap (λ i. BTreeMap.get i t.entries) ((=?_iff o id).0 same) in
      absurd (ground arith)
]

gone :
    (t : MirrorTable) (id : NotificationId) (n : Shown)
    → IsValid t
    → (o : NotificationId) (e : MirrorEntry) → BTreeMap.get o t.entries ≡ some e
    → (insert t id n).1 ≡ some (o, e)
    → contains id t ≡ false
    → get o (insert t id n).0 ≡ none
gone t id n v o e held back new_one =
    get-insert_table t id o n v ∙ rw (unevicted t id o e new_one held, back, =?_refl o) refl

-- A new identity at the ceiling evicts an entry that no other one is older than: it hands it back, and
-- the table has it no more. An identity that is held, or one that comes below the ceiling, evicts
-- nothing. The inserted identity then has the new entry, and each that was not evicted what it had.
pub insert_evicts :
    (t : MirrorTable) (id : NotificationId) (n : Shown)
    → IsValid t
    → (contains id t ≡ false
        → len t ≡ max_mirrors_per_peer
        → (o : NotificationId) × (e : MirrorEntry) × ((insert t id n).1 ≡ some (o, e))
          × (get o t ≡ some e)
          × (get o (insert t id n).0 ≡ none)
          × ((j : NotificationId) (f : MirrorEntry) → get j t ≡ some f → e.seq ≤ f.seq))
      × (contains id t ≡ true → (insert t id n).1 ≡ none)
      × (len t < max_mirrors_per_peer → (insert t id n).1 ≡ none)
      × ((j : NotificationId)
          → get j (insert t id n).0 ≡ (
              if j =? id
              then some (entry_of n t.next_seq)
              else if was_evicted j (insert t id n).1
              then none
              else get j t))
unfolding get len insert evict_if_full
insert_evicts t id n v = (
  λ h full. elim (Option-cases (oldest t.entries)) [
    | inl e ↦ absurd (omega (arith, oldest-ne-none t.entries e))
    | inr ((o, x), e) ↦
        let held = oldest-get t.entries o x v.sorted e in
        let back : (insert t id n).1 ≡ some (o, x) = ground arith in
        (o, x, back, held, gone t id n v o x held back h, λ j f. oldest-least t.entries o j x f e)
  ],
  λ h. ground arith,
  λ h. ground arith,
  λ j. get-insert_table t id j n v,
)
