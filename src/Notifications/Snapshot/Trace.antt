-- ===== src/Notifications/Snapshot/Trace.antt =====
-- What a completed snapshot names, over the messages that a peer sent.
use anyflow.Prelude.{
  ◌≡◌, refl, Bool, true, false, not, ◌&&◌, ◌||◌, none, some, List, [], ◌∷◌, any, all, arith, Bytes,
  ◌=?◌, =?_refl, bytes_key,
}
use anyflow.Collections.BTreeMap
use anyflow.Collections.BTreeMap.{BTreeMap, get-insert}
use anyflow.Notifications.Id.{NotificationId, id_key}
use anyflow.Notifications.Wire.{SyncMarker}
use anyflow.Notifications.Snapshot.{
  IdSet, Snapshot, Phase, begin, end, phase, complete, marker, upsert, abandon, new,
}

pub data Event : Type 0 where
  marked : SyncMarker → Event
  upserted : NotificationId → Event
  abandoned : Event

unfoldable pub step : Snapshot → Event → Snapshot
step s (marked m) = (marker s m).0
step s (upserted id) = (upsert s id).0
step s abandoned = abandon s

unfoldable pub run : Snapshot → List Event → Snapshot
run s [] = s
run s (e ∷ es) = run (step s e) es

abbrev is_begin : Phase → Bool
is_begin begin = true
is_begin _ = false

abbrev is_end : Phase → Bool
is_end end = true
is_end _ = false

-- An event that neither opens a snapshot, nor completes or abandons the one for `sync_id`.
abbrev pub is_inner : Bytes → Event → Bool
is_inner sync_id (marked m) =
    not (is_begin (phase m)) && not (is_end (phase m) && sync_id =? m.sync_id)
is_inner sync_id (upserted id) = true
is_inner sync_id abandoned = false

abbrev pub shows : NotificationId → Event → Bool
shows id (upserted j) = id =? j
shows id _ = false

abbrev pub opens : Bytes → Event → Bool
opens sync_id (marked m) = is_begin (phase m) && m.sync_id =? sync_id
opens sync_id _ = false

abbrev pub Opened : Bytes → IdSet → Snapshot
Opened sync_id named = record { open_one = some (record { sync_id = sync_id; named = named }) }

step-marked_inner :
    (sync_id : Bytes) (named : IdSet) (m : SyncMarker)
    → is_inner sync_id (marked m) ≡ true
    → step (Opened sync_id named) (marked m) ≡ Opened sync_id named
unfolding step marker
step-marked_inner sync_id named m h = ground arith

step-upserted :
    (sync_id : Bytes) (named : IdSet) (id : NotificationId)
    → step (Opened sync_id named) (upserted id) ≡ Opened sync_id (BTreeMap.insert id tt named)
unfolding step upsert
step-upserted sync_id named id = refl

step-marked_begin :
    (s : Snapshot) (m : SyncMarker) → phase m ≡ begin → step s (marked m) ≡ Opened m.sync_id []
unfolding step marker
step-marked_begin s m h = ground arith

marker-end :
    (named : IdSet) (m : SyncMarker)
    → phase m ≡ end
    → marker (Opened m.sync_id named) m ≡ (new, complete named)
unfolding marker new
marker-end named m h = ground (arith, =?_refl m.sync_id)

-- Inner events keep the snapshot open, and add to its set what they upsert.
run-inner :
    (sync_id : Bytes) (named : IdSet) (es : List Event)
    → all (is_inner sync_id) es ≡ true
    → (after : IdSet) × (run (Opened sync_id named) es ≡ Opened sync_id after)
      × ((id : NotificationId)
          → BTreeMap.contains_key id after ≡ (BTreeMap.contains_key id named || any (shows id) es))
unfolding run BTreeMap.contains_key
run-inner sync_id named [] h = (named, refl, λ id. ground arith)
run-inner sync_id named (abandoned ∷ es) h = cc
run-inner sync_id named (upserted j ∷ es) h =
    let (after, ran, names) = run-inner sync_id (BTreeMap.insert j tt named) es (ground arith) in
    (
      after,
      rw (step-upserted sync_id named j) ran,
      λ id. ground (arith, names id, get-insert j id tt named),
    )
run-inner sync_id named (marked m ∷ es) h =
    let (after, ran, names) = run-inner sync_id named es (ground arith) in
    (
      after,
      rw (step-marked_inner sync_id named m (ground arith)) ran,
      λ id. ground (arith, names id),
    )

-- Whatever came before: a BEGIN, then events of which none is a BEGIN, an abandonment or an END for
-- the same snapshot, then its END, complete the snapshot; it is closed, and names exactly the
-- identities upserted in between. Unknown markers and ENDs for other snapshots change nothing.
pub marker_complete :
    (s : Snapshot) (b e : SyncMarker) (es : List Event)
    → phase b ≡ begin
    → phase e ≡ end
    → b.sync_id ≡ e.sync_id
    → all (is_inner e.sync_id) es ≡ true
    → let s' = run s (marked b ∷ es) in
      (named : IdSet) × ((marker s' e).1 ≡ complete named)
      × ((marker s' e).0 ≡ new)
      × ((id : NotificationId) → BTreeMap.contains_key id named ≡ any (shows id) es)
unfolding run BTreeMap.contains_key
marker_complete s b e es pb pe same h =
    let (after, ran, names) = run-inner e.sync_id [] es h in
    let closed = marker-end after e pe in
    (
      after,
      rw (step-marked_begin s b pb, same, ran, closed),
      rw (step-marked_begin s b pb, same, ran, closed),
      names,
    )

abbrev has_open : Bytes → Snapshot → Bool
has_open sync_id s = elim s.open_one [ none ↦ false | some o ↦ o.sync_id =? sync_id ]

step-has_open :
    (s : Snapshot) (e : Event) (sync_id : Bytes)
    → has_open sync_id (step s e) ≡ true
    → (has_open sync_id s || opens sync_id e) ≡ true
unfolding step marker upsert abandon
step-has_open s (marked m) sync_id h = ground arith
step-has_open s (upserted id) sync_id h = ground arith
step-has_open s abandoned sync_id h = ground arith

run-has_open :
    (s : Snapshot) (es : List Event) (sync_id : Bytes)
    → has_open sync_id (run s es) ≡ true
    → (has_open sync_id s || any (opens sync_id) es) ≡ true
unfolding run
run-has_open s [] sync_id h = ground arith
run-has_open s (e ∷ es) sync_id h =
    ground (arith, run-has_open (step s e) es sync_id, step-has_open s e sync_id)

-- No marker completes a snapshot unless a BEGIN with its own `sync_id` came before it.
pub complete_needs_begin :
    (es : List Event) (m : SyncMarker) (named : IdSet)
    → (marker (run new es) m).1 ≡ complete named
    → any (opens m.sync_id) es ≡ true
unfolding new marker
complete_needs_begin es m named h = ground (arith, run-has_open new es m.sync_id)
