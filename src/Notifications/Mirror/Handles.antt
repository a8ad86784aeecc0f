-- ===== src/Notifications/Mirror/Handles.antt =====
-- The `NotificationClosed` path of mirror.rs: a close signal acts at most once, and only on a
-- mirror that is still in the table.
use anyflow.Prelude.{
  ℕ, suc, ◌≤◌, ap, ◌≡◌, refl, sym, ◌∙◌, true, Option, none, some, [], ◌∷◌, map, arith,
  if◌then◌else◌, ◌=?◌, =?_iff, Option-cases, inl, inr,
}
use anyflow.Collections.BTreeMap
use anyflow.Collections.BTreeMap.{BTreeMap, get-insert, get-remove}
use anyflow.Collections.Sorted.{above, is_sorted, get-above}
use anyflow.Notifications.Id.{NotificationId, id_key}
use anyflow.Notifications.Mirror.Table.{IsValid}
use anyflow.Notifications.Mirror.{
  MirrorEntry, MirrorTable, Named, ServerId, get, remove, has_handle, find_handle, forget_server_id,
  invalidate_server_ids, clear_handle,
}

-- The entries that carry a handle.
unfoldable pub holders : ServerId → BTreeMap NotificationId MirrorEntry → ℕ
holders sid [] = 0
holders sid (x ∷ m) = if has_handle sid x then suc (holders sid m) else holders sid m

-- The notification server gives a handle to one notification at a time.
abbrev pub IsExclusive : ServerId → MirrorTable → Type 0
IsExclusive sid t = holders sid t.entries ≤ 1

remove-above :
    (a : NotificationId) (m : BTreeMap NotificationId MirrorEntry)
    → above a m ≡ true
    → BTreeMap.remove a m ≡ m
unfolding BTreeMap.remove
remove-above a [] h = refl
remove-above a ((b, e) ∷ m) h = ground (arith, remove-above a m)

holders-remove :
    (sid : ServerId) (id : NotificationId) (e : MirrorEntry)
    (m : BTreeMap NotificationId MirrorEntry)
    → is_sorted m ≡ true
    → BTreeMap.get id m ≡ some e
    → e.server_id ≡ some sid
    → holders sid m ≡ suc (holders sid (BTreeMap.remove id m))
unfolding holders BTreeMap.get BTreeMap.remove
holders-remove sid id e [] s g h = cc
holders-remove sid id e ((j, f) ∷ m) s g h =
    ground (arith, holders-remove sid id e m, remove-above j m, =?_iff id j)

find_handle-none :
    (sid : ServerId) (m : BTreeMap NotificationId MirrorEntry)
    → holders sid m ≡ 0
    → find_handle sid m ≡ none
unfolding holders find_handle
find_handle-none sid [] h = refl
find_handle-none sid (x ∷ m) h = ground (arith, find_handle-none sid m)

find_handle-some :
    (sid : ServerId) (m : BTreeMap NotificationId MirrorEntry) (id : NotificationId)
    (e : MirrorEntry)
    → is_sorted m ≡ true
    → find_handle sid m ≡ some (id, e)
    → (BTreeMap.get id m ≡ some e) × (e.server_id ≡ some sid)
unfolding find_handle BTreeMap.get
find_handle-some sid [] id e s h = cc
find_handle-some sid ((j, f) ∷ m) id e s h =
    ground (arith, find_handle-some sid m id e, =?_iff id j, get-above j m)

forget-none :
    (sid : ServerId) (t : MirrorTable)
    → holders sid t.entries ≡ 0
    → (forget_server_id sid t).1 ≡ none
unfolding forget_server_id
forget-none sid t h = rw (find_handle-none sid t.entries h, forget_server_id)

-- A mirror that was taken out of the table by its identity is not found by the close signal that
-- follows, where the notification server gave its handle to nothing else.
pub forget_after_remove :
    (t : MirrorTable) (id : NotificationId) (e : MirrorEntry) (sid : ServerId)
    → IsValid t
    → IsExclusive sid t
    → get id t ≡ some e
    → e.server_id ≡ some sid
    → (forget_server_id sid (remove id t).0).1 ≡ none
unfolding get remove
forget_after_remove t id e sid v x g h =
    let fewer = holders-remove sid id e t.entries v.sorted g h in forget-none sid _ (omega arith)

abbrev without : NotificationId → MirrorTable → MirrorTable
without id t = record t { entries = BTreeMap.remove id t.entries }

forget-found :
    (t : MirrorTable) (sid : ServerId) (id : NotificationId) (e : MirrorEntry)
    → IsValid t
    → find_handle sid t.entries ≡ some (id, e)
    → forget_server_id sid t ≡ (without id t, some (id, e))
unfolding forget_server_id
forget-found t sid id e v h =
    rw (h, forget_server_id, (find_handle-some sid t.entries id e v.sorted h).0) refl

found-forget :
    (t : MirrorTable) (sid : ServerId) (id : NotificationId) (e : MirrorEntry)
    → IsValid t
    → (forget_server_id sid t).1 ≡ some (id, e)
    → find_handle sid t.entries ≡ some (id, e)
unfolding forget_server_id
found-forget t sid id e v f = elim (Option-cases (find_handle sid t.entries)) [
  | inl n ↦ absurd (ground arith)
  | inr ((i, y), n) ↦
      n ∙ sym (ap (λ (r : MirrorTable × Option Named). r.1) (forget-found t sid i y v n)) ∙ f
]

-- A close signal that finds a mirror hands back the entry that carries the handle and takes it out,
-- leaves every other entry, and finds nothing when it comes again.
pub forget_once :
    (t : MirrorTable) (sid : ServerId) (id : NotificationId) (e : MirrorEntry)
    → IsValid t
    → IsExclusive sid t
    → (forget_server_id sid t).1 ≡ some (id, e)
    → let t' = (forget_server_id sid t).0 in
      (e.server_id ≡ some sid)
      × (get id t ≡ some e)
      × ((j : NotificationId) → get j t' ≡ (if j =? id then none else get j t))
      × ((forget_server_id sid t').1 ≡ none)
unfolding get
forget_once t sid id e v x f =
    let n = found-forget t sid id e v f in
    let (held, handle) = find_handle-some sid t.entries id e v.sorted n in
    let fewer = holders-remove sid id e t.entries v.sorted held handle in
    rw (forget-found t sid id e v n)
      (handle, held, λ j. get-remove id j t.entries, forget-none sid (without id t) (omega arith))

holders-clear :
    (sid : ServerId) (m : BTreeMap NotificationId MirrorEntry)
    → holders sid (map clear_handle m) ≡ 0
unfolding holders
holders-clear sid [] = refl
holders-clear sid ((id, e) ∷ m) = holders-clear sid m

abbrev pub without_handle : Option MirrorEntry → Option MirrorEntry
without_handle none = none
without_handle (some e) = some (record e { server_id = none })

get-clear :
    (id : NotificationId) (m : BTreeMap NotificationId MirrorEntry)
    → BTreeMap.get id (map clear_handle m) ≡ without_handle (BTreeMap.get id m)
unfolding BTreeMap.get
get-clear id [] = refl
get-clear id ((j, e) ∷ m) = ground (arith, get-clear id m)

-- After a restart of the notification server every identity is still there, with no handle, and no
-- close signal finds a mirror.
pub invalidate_lem :
    (t : MirrorTable) (id : NotificationId) (sid : ServerId)
    → (get id (invalidate_server_ids t) ≡ without_handle (get id t))
      × ((forget_server_id sid (invalidate_server_ids t)).1 ≡ none)
unfolding get invalidate_server_ids
invalidate_lem t id sid = (get-clear id t.entries, forget-none sid _ (holders-clear sid t.entries))
