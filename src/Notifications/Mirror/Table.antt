-- ===== src/Notifications/Mirror/Table.antt =====
-- The mirror table stays within its ceiling and in key order (mirror.rs, `insert` and the rest).
use anyflow.Prelude.{
  suc, ◌≤◌, ◌<◌, ap, ◌≡◌, refl, true, false, none, some, [], ◌∷◌, map, arith, length, =?_iff,
  Bool-cases, Option-cases, inl, inr,
}
use anyflow.Collections.BTreeMap
use anyflow.Collections.BTreeMap.{BTreeMap, length-remove-lt, length-remove-le}
use anyflow.Collections.Sorted.{
  above, is_sorted, is_sorted-insert, is_sorted-remove, length-insert, get-above,
}
use anyflow.Notifications.Id.{NotificationId, id_key}
use anyflow.Notifications.Mirror.{
  MirrorEntry, MirrorTable, Shown, ServerId, max_mirrors_per_peer, new, oldest, entry_of,
  evict_if_full, contains, store, insert, remove, find_handle, forget_server_id,
  invalidate_server_ids, clear_handle, drain,
}

pub record IsValid (t : MirrorTable) : Type 0 where
  pub sorted : is_sorted t.entries ≡ true
  pub within : length t.entries ≤ max_mirrors_per_peer

new-IsValid : IsValid new
unfolding new
new-IsValid = record { sorted = refl; within = omega arith }

-- `oldest` names an entry of the table.
pub oldest-get :
    (m : BTreeMap NotificationId MirrorEntry) (id : NotificationId) (e : MirrorEntry)
    → is_sorted m ≡ true
    → oldest m ≡ some (id, e)
    → BTreeMap.get id m ≡ some e
unfolding oldest BTreeMap.get
oldest-get [] id e s o = cc
oldest-get ((j, f) ∷ m) id e s o = elim (Option-cases (oldest m)) [
  | inl n ↦ ground (arith, =?_iff id j)
  | inr ((i, x), n) ↦ ground (arith, =?_iff id j, oldest-get m i x (ground arith) n, get-above j m)
]

pub oldest-ne-none : (m : BTreeMap NotificationId MirrorEntry) → oldest m ≡ none → length m ≡ 0
unfolding oldest
oldest-ne-none [] o = refl
oldest-ne-none (x ∷ m) o = cc

-- Room is made for an identity that the table does not hold: the length falls below the ceiling.
evict-IsValid :
    (t : MirrorTable)
    → IsValid t
    → IsValid (evict_if_full t).0 × (length (evict_if_full t).0.entries < max_mirrors_per_peer)
unfolding evict_if_full
evict-IsValid t v = elim (Option-cases (oldest t.entries)) [
  | inl n ↦ ground (arith, oldest-ne-none t.entries)
  | inr ((id, e), n) ↦
      let held = oldest-get t.entries id e v.sorted n in
      ground (arith, length-remove-lt id e t.entries held, is_sorted-remove id t.entries)
]

store-IsValid :
    (t : MirrorTable) (id : NotificationId) (n : Shown)
    → IsValid t
    → (contains id t ≡ false → length t.entries < max_mirrors_per_peer)
    → IsValid (store t id n)
unfolding store contains
store-IsValid t id n v room = ground (
  arith,
  is_sorted-insert id (entry_of n t.next_seq) t.entries,
  length-insert id (entry_of n t.next_seq) t.entries,
)

pub insert-IsValid :
    (t : MirrorTable) (id : NotificationId) (n : Shown) → IsValid t → IsValid (insert t id n).0
unfolding insert
insert-IsValid t id n v = elim (Bool-cases (contains id t)) [
  | inl held ↦ rw (held, insert) (store-IsValid t id n v (λ e. absurd (ground arith)))
  | inr new_one ↦
      let (w, room) = evict-IsValid t v in rw (new_one, insert) (store-IsValid _ id n w (λ e. room))
]

remove-IsValid : (id : NotificationId) (t : MirrorTable) → IsValid t → IsValid (remove id t).0
unfolding remove
remove-IsValid id t v = ground (arith, is_sorted-remove id t.entries, length-remove-le id t.entries)

forget-IsValid :
    (server_id : ServerId) (t : MirrorTable) → IsValid t → IsValid (forget_server_id server_id t).0
unfolding forget_server_id
forget-IsValid server_id t v = elim (Option-cases (find_handle server_id t.entries)) [
  | inl e ↦ rw (e, forget_server_id) v
  | inr ((id, x), e) ↦
      rw (e, forget_server_id)
        (ground (arith, is_sorted-remove id t.entries, length-remove-le id t.entries))
]

above-clear :
    (a : NotificationId) (m : BTreeMap NotificationId MirrorEntry)
    → above a (map clear_handle m) ≡ above a m
above-clear a [] = refl
above-clear a ((b, e) ∷ m) = ground (arith, above-clear a m)

sorted-clear :
    (m : BTreeMap NotificationId MirrorEntry) → is_sorted (map clear_handle m) ≡ is_sorted m
sorted-clear [] = refl
sorted-clear ((b, e) ∷ m) = ground (arith, sorted-clear m, above-clear b m)

length-clear : (m : BTreeMap NotificationId MirrorEntry) → length (map clear_handle m) ≡ length m
length-clear [] = refl
length-clear (x ∷ m) = ap suc (length-clear m)

invalidate-IsValid : (t : MirrorTable) → IsValid t → IsValid (invalidate_server_ids t)
unfolding invalidate_server_ids
invalidate-IsValid t v = record {
  sorted = rw (sorted-clear t.entries) v.sorted;
  within = rw (length-clear t.entries) v.within;
}

-- The calls that change a table.
pub data Call : Type 0 where
  inserts : NotificationId → Shown → Call
  removes : NotificationId → Call
  forgets : ServerId → Call
  invalidates : Call
  drains : Call

unfoldable pub step : MirrorTable → Call → MirrorTable
step t (inserts id n) = (insert t id n).0
step t (removes id) = (remove id t).0
step t (forgets server_id) = (forget_server_id server_id t).0
step t invalidates = invalidate_server_ids t
step t drains = (drain t).0

-- Every call keeps the table in key order and within 200 entries.
pub step-IsValid : (t : MirrorTable) (c : Call) → IsValid t → IsValid (step t c)
unfolding step drain
step-IsValid t (inserts id n) v = insert-IsValid t id n v
step-IsValid t (removes id) v = remove-IsValid id t v
step-IsValid t (forgets server_id) v = forget-IsValid server_id t v
step-IsValid t invalidates v = invalidate-IsValid t v
step-IsValid t drains v = record { sorted = refl; within = omega arith }
