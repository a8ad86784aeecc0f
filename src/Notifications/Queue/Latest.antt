-- ===== src/Notifications/Queue/Latest.antt =====
-- The newest word on an identity wins: of its upserts and removals, the last in the queue is the one
-- that was offered last.
use anyflow.Prelude.{
  ℕ, ◌≡◌, refl, ◌≢◌, inl, inr, true, Option, none, some, List, [], ◌∷◌, ◌++◌, arith, set, remove_at,
  if◌then◌else◌, =?_iff,
}
use anyflow.Notifications.Id.{NotificationId, id_key}
use anyflow.Notifications.Queue.Slots.{scan}
use anyflow.Notifications.Queue.Settled.{
  mentions, quiet, settled, IsSettled, Slot, here, there, Slot-cases,
}
use anyflow.Notifications.Queue.Admit.{Admitted, fits, evicts, loses, admit-Admitted}
use anyflow.Notifications.Queue.{
  dismiss, sync, lock_changed, close_all, Work, Incoming, QueueState, Offered, dropped,
  announce_roles, upsert, remove, clear, push, offer,
}

-- The last upsert or removal of `id`.
abbrev later : NotificationId → Work → Option Work → Option Work
later id w (some v) = some v
later id w none = if mentions id w then some w else none

unfoldable pub latest : NotificationId → List Work → Option Work
latest id [] = none
latest id (w ∷ ws) = later id w (latest id ws)

latest-push :
    (id : NotificationId) (w : Work) (ws : List Work)
    → mentions id w ≡ true
    → latest id (ws ++ w ∷ []) ≡ some w
unfolding latest
latest-push id w [] m = ground arith
latest-push id w (v ∷ ws) m = ground (arith, latest-push id w ws)

latest-quiet :
    (id : NotificationId) (ws : List Work)
    → scan id ws ≡ clear
    → quiet id ws ≡ true
    → latest id ws ≡ none
unfolding latest scan quiet
latest-quiet id [] c q = refl
latest-quiet id (w ∷ ws) c q = ground (arith, latest-quiet id ws)

latest-set :
    {id : NotificationId} {i : ℕ} {ws : List Work} (incoming : Incoming)
    → Slot id ws i
    → incoming.id ≡ id
    → settled ws ≡ true
    → latest id (set ws i (upsert incoming)) ≡ some (upsert incoming)
unfolding latest settled
latest-set {id} incoming (here old {ws} same c) e h =
    ground (arith, latest-quiet id ws c, =?_iff old.id id, =?_iff incoming.id id)
latest-set incoming (there w s f) e h = ground (arith, latest-set incoming s e)

admit-latest :
    (id : NotificationId) (s : QueueState) (w : Work) {r : QueueState × Offered}
    → Admitted s w r
    → mentions id w ≡ true
    → r.1 ≢ dropped
    → latest id r.0.items ≡ some w
unfolding push
admit-latest id s w (fits room e) m kept = ground (arith, latest-push id w s.items)
admit-latest id s w (evicts i full p e) m kept =
    ground (arith, latest-push id w (remove_at i s.items))
admit-latest id s w (loses full p e) m kept = absurd (ground arith)

-- An upsert or a removal that is offered to a settled queue, and is not dropped, is the last of the
-- upserts and removals of its identity in the queue, whatever was pending before. A dismissal, which
-- asks the phone to close a notification, is not among them.
pub offer-latest :
    (s : QueueState) (id : NotificationId) (w : Work)
    → IsSettled s
    → mentions id w ≡ true
    → (offer s w).1 ≢ dropped
    → latest id (offer s w).0.items ≡ some w
unfolding offer
offer-latest s id (upsert incoming) h m kept = elim (Slot-cases incoming.id s.items) [
  | inl (e, n) ↦
      rw (e, offer)
        (admit-latest id s (upsert incoming) (admit-Admitted s (upsert incoming)) m
          (λ d. kept (rw (e, offer) d)))
  | inr (i, e, slot) ↦
      rw (e, offer, ← (=?_iff incoming.id id).0 m) (latest-set incoming slot refl h)
]
offer-latest s id (remove j) h m kept = elim (Slot-cases j s.items) [
  | inl (e, n) ↦
      rw (e, offer)
        (admit-latest id s (remove j) (admit-Admitted s (remove j)) m (λ d. kept (rw (e, offer) d)))
  | inr (i, e, slot) ↦
      rw (e, offer)
        (admit-latest id (record s { items = remove_at i s.items }) (remove j)
          (admit-Admitted _ (remove j)) m (λ d. kept (rw (e, offer) d)))
]
offer-latest s id announce_roles h m kept = cc
offer-latest s id (dismiss j o) h m kept = cc
offer-latest s id (sync k) h m kept = cc
offer-latest s id (lock_changed b) h m kept = cc
offer-latest s id (close_all r) h m kept = cc
