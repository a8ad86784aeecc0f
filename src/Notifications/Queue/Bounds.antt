-- ===== src/Notifications/Queue/Bounds.antt =====
-- The ceiling of the queue, and its counters, over any run of offers and drains.
use anyflow.Prelude.{
  ℕ, ◌≤◌, ◌<◌, ◌≡◌, inl, inr, Bool, some, List, [], ◌∷◌, arith, remove_at, position, length,
  length-append, length-set, length-remove_at-le, Option-cases,
}
use anyflow.Notifications.Queue.Admit.{
  Admitted, fits, evicts, loses, admit-Admitted, evict, is_losable,
}
use anyflow.Notifications.Queue.{
  Work, QueueState, Offered, announce_roles, upsert, remove, upsert_slot, dismiss, sync,
  lock_changed, close_all, max_queued_work, push, offer, drain,
}

-- `high_water` has seen every length of the queue, and none of them passed the ceiling.
pub record IsBounded (s : QueueState) : Type 0 where
  pub seen : length s.items ≤ s.high_water
  pub capped : s.high_water ≤ max_queued_work

length-remove_position :
    (p : Work → Bool) (ws : List Work) (i : ℕ)
    → position p ws ≡ some i
    → length (remove_at i ws) < length ws
length-remove_position p [] i e = cc
length-remove_position p (w ∷ ws) i e = elim (Option-cases (position p ws)) [
  | inl n ↦ ground arith
  | inr (k, n) ↦ ground (arith, length-remove_position p ws k n)
]

push-IsBounded :
    (s : QueueState) (w : Work)
    → IsBounded s
    → length s.items < max_queued_work
    → IsBounded (push s w)
unfolding push
push-IsBounded s w b room = ground (arith, length-append s.items (w ∷ []))

admit-IsBounded :
    (s : QueueState) (w : Work) {r : QueueState × Offered}
    → IsBounded s
    → Admitted s w r
    → IsBounded r.0
admit-IsBounded s w b (fits room e) = rw e (push-IsBounded s w b room)
admit-IsBounded s w b (evicts i full p e) =
    let fewer = length-remove_position is_losable s.items i p in
    rw e (push-IsBounded (evict s i) w (ground arith) (ground arith))
admit-IsBounded s w b (loses full p e) = rw e (ground arith)

pub offer-IsBounded : (s : QueueState) (w : Work) → IsBounded s → IsBounded (offer s w).0
unfolding offer
offer-IsBounded s (upsert incoming) b = elim (Option-cases (upsert_slot incoming.id s.items)) [
  | inl e ↦ rw (e, offer) (admit-IsBounded s _ b (admit-Admitted s (upsert incoming)))
  | inr (i, e) ↦ rw (e, offer) (ground (arith, length-set s.items i (upsert incoming)))
]
offer-IsBounded s (remove id) b = elim (Option-cases (upsert_slot id s.items)) [
  | inl e ↦ rw (e, offer) (admit-IsBounded s _ b (admit-Admitted s (remove id)))
  | inr (i, e) ↦
      let fewer = length-remove_at-le i s.items in
      rw (e, offer)
        (admit-IsBounded (record s { items = remove_at i s.items }) _ (ground arith)
          (admit-Admitted _ (remove id)))
]
offer-IsBounded s announce_roles b =
    let queued = admit-IsBounded s announce_roles b (admit-Admitted s announce_roles) in
    ground arith
offer-IsBounded s (dismiss j o) b = admit-IsBounded s _ b (admit-Admitted s (dismiss j o))
offer-IsBounded s (sync m) b = admit-IsBounded s _ b (admit-Admitted s (sync m))
offer-IsBounded s (lock_changed l) b = admit-IsBounded s _ b (admit-Admitted s (lock_changed l))
offer-IsBounded s (close_all r) b = admit-IsBounded s _ b (admit-Admitted s (close_all r))

-- What the session and the worker do to a queue, in any order.
pub data Act : Type 0 where
  offers : Work → Act
  drains : Act

unfoldable pub run : QueueState → List Act → QueueState
run s [] = s
run s (offers w ∷ acts) = run (offer s w).0 acts
run s (drains ∷ acts) = run (drain s).0 acts

-- Offers and drains in any order, from a bounded queue, keep it bounded: at most 256 items, a high
-- water mark that no length exceeds, and itself at most 256.
pub run-IsBounded : (s : QueueState) (acts : List Act) → IsBounded s → IsBounded (run s acts)
unfolding run drain
run-IsBounded s [] b = b
run-IsBounded s (offers w ∷ acts) b = run-IsBounded (offer s w).0 acts (offer-IsBounded s w b)
run-IsBounded s (drains ∷ acts) b = run-IsBounded _ acts (ground arith)
