-- ===== src/Notifications/Queue/Terminal.antt =====
-- Terminal work is never coalesced away, and is dropped only behind a full queue of terminal work.
use anyflow.Prelude.{
  ℕ, ◌<◌, ◌≡◌, refl, ap, inl, inr, Bool, true, false, not, ◌&&◌, none, some, List, [], ◌∷◌, ◌++◌,
  arith, any, all, keep, keep-append, set, remove_at, position, if◌then◌else◌, length, Bool-cases,
  Option-cases,
}
use mathlib.Core.List.{append-nil}
use anyflow.Notifications.Id.{NotificationId, id_key}
use anyflow.Notifications.Queue.Admit.{
  Admitted, fits, evicts, loses, admit-Admitted, evict, is_losable,
}
use anyflow.Notifications.Queue.Settled.{Slot, here, there, Slot-cases}
use anyflow.Notifications.Queue.Bounds.{IsBounded}
use anyflow.Notifications.Queue.{
  Work, QueueState, Offered, dropped, announce_roles, upsert, remove, is_announce, dismiss, sync,
  lock_changed, close_all, Incoming, is_terminal, count_up, max_queued_work, push, offer,
}

abbrev pub is_dropped : Offered → Bool
is_dropped dropped = true
is_dropped _ = false

-- What an offer of `w` with this result adds to the terminal items.
abbrev pub added : Work → Offered → List Work
added w r = if is_terminal w && not (is_dropped r) then w ∷ [] else []

terminals-set :
    {id : NotificationId} {i : ℕ} {ws : List Work} (incoming : Incoming)
    → Slot id ws i
    → keep is_terminal (set ws i (upsert incoming)) ≡ keep is_terminal ws
terminals-set incoming (here old same c) = refl
terminals-set incoming (there w s e) = ground (arith, terminals-set incoming s)

terminals-remove :
    {id : NotificationId} {i : ℕ} {ws : List Work}
    → Slot id ws i
    → keep is_terminal (remove_at i ws) ≡ keep is_terminal ws
terminals-remove (here old same c) = refl
terminals-remove (there w s e) = ground (arith, terminals-remove s)

terminals-evict :
    (ws : List Work) (i : ℕ)
    → position is_losable ws ≡ some i
    → keep is_terminal (remove_at i ws) ≡ keep is_terminal ws
terminals-evict [] i e = refl
terminals-evict (w ∷ ws) i e = elim (Option-cases (position is_losable ws)) [
  | inl n ↦ ground arith
  | inr (k, n) ↦ ground (arith, terminals-evict ws k n)
]

push-terminals :
    (s : QueueState) (w : Work)
    → keep is_terminal (push s w).items ≡ keep is_terminal s.items ++ keep is_terminal (w ∷ [])
unfolding push
push-terminals s w = keep-append is_terminal s.items (w ∷ [])

admit-terminals :
    (s : QueueState) (w : Work) {r : QueueState × Offered}
    → Admitted s w r
    → keep is_terminal r.0.items ≡ keep is_terminal s.items ++ added w r.1
admit-terminals s w (fits room e) = rw e (ground (arith, push-terminals s w))
admit-terminals s w (evicts i full p e) =
    rw e (ground (arith, push-terminals (evict s i) w, terminals-evict s.items i p))
admit-terminals s w (loses full p e) = rw e (ground (arith, append-nil (keep is_terminal s.items)))

-- An offer keeps every pending terminal item, in order, and adds the one offered unless it reports
-- `dropped`.
pub offer-terminals :
    (s : QueueState) (w : Work)
    → keep is_terminal (offer s w).0.items ≡ keep is_terminal s.items ++ added w (offer s w).1
unfolding offer
offer-terminals s (upsert incoming) = elim (Slot-cases incoming.id s.items) [
  | inl (e, n) ↦ rw (e, offer) (admit-terminals s (upsert incoming) (admit-Admitted s _))
  | inr (i, e, slot) ↦
      rw (e, offer, terminals-set incoming slot, append-nil (keep is_terminal s.items)) refl
]
offer-terminals s (remove id) = elim (Slot-cases id s.items) [
  | inl (e, n) ↦ rw (e, offer) (admit-terminals s (remove id) (admit-Admitted s _))
  | inr (i, e, slot) ↦
      rw (e, offer, ← terminals-remove slot)
        (admit-terminals (record s { items = remove_at i s.items }) (remove id)
          (admit-Admitted _ _))
]
offer-terminals s announce_roles = elim (Bool-cases (any is_announce s.items)) [
  | inl e ↦ rw (e, offer, append-nil (keep is_terminal s.items)) refl
  | inr e ↦ rw (e, offer) (admit-terminals s announce_roles (admit-Admitted s _))
]
offer-terminals s (dismiss j o) = admit-terminals s (dismiss j o) (admit-Admitted s _)
offer-terminals s (sync m) = admit-terminals s (sync m) (admit-Admitted s _)
offer-terminals s (lock_changed b) = admit-terminals s (lock_changed b) (admit-Admitted s _)
offer-terminals s (close_all r) = admit-terminals s (close_all r) (admit-Admitted s _)

all-terminal : (ws : List Work) → position is_losable ws ≡ none → all is_terminal ws ≡ true
all-terminal [] e = refl
all-terminal (w ∷ ws) e = elim (Option-cases (position is_losable ws)) [
  | inl n ↦ ground (arith, all-terminal ws n)
  | inr (k, n) ↦ ground arith
]

length-remove-Slot :
    {id : NotificationId} {i : ℕ} {ws : List Work}
    → Slot id ws i
    → length (remove_at i ws) < length ws
length-remove-Slot (here old same c) = omega arith
length-remove-Slot (there w s e) = omega (arith, length-remove-Slot s)

abbrev pub IsLost : QueueState → QueueState × Offered → Type 0
IsLost s r =
    (all is_terminal s.items ≡ true)
    × (length s.items ≡ max_queued_work)
    × (r.0 ≡ record s { dropped_terminal = count_up s.dropped_terminal })

admit-dropped :
    (s : QueueState) (w : Work) {r : QueueState × Offered}
    → IsBounded s
    → Admitted s w r
    → r.1 ≡ dropped
    → IsLost s r
admit-dropped s w b (fits room e) d = absurd (ground arith)
admit-dropped s w b (evicts i full p e) d = absurd (ground arith)
admit-dropped s w b (loses full p e) d = (
  all-terminal s.items p,
  omega (arith, b.seen, b.capped),
  ap (λ (x : QueueState × Offered). x.0) e,
)

-- An offer to a bounded queue reports `dropped` only where the queue holds 256 items, all terminal;
-- then nothing changes but the counter of such drops.
pub offer-dropped :
    (s : QueueState) (w : Work) → IsBounded s → (offer s w).1 ≡ dropped → IsLost s (offer s w)
unfolding offer
offer-dropped s (upsert incoming) b d = elim (Slot-cases incoming.id s.items) [
  | inl (e, n) ↦
      rw (e, offer) (admit-dropped s (upsert incoming) b (admit-Admitted s _) (rw (e, offer) at d))
  | inr (i, e, slot) ↦ absurd (ground arith)
]
offer-dropped s (remove id) b d = elim (Slot-cases id s.items) [
  | inl (e, n) ↦
      rw (e, offer) (admit-dropped s (remove id) b (admit-Admitted s _) (rw (e, offer) at d))
  | inr (i, e, slot) ↦
      let fewer = length-remove-Slot slot in
      let lost =
        admit-dropped (record s { items = remove_at i s.items }) (remove id) (omega arith)
          (admit-Admitted _ _) (rw (e, offer) at d) in
      absurd (omega (arith, lost.1))
]
offer-dropped s announce_roles b d = elim (Bool-cases (any is_announce s.items)) [
  | inl e ↦ absurd (ground arith)
  | inr e ↦
      rw (e, offer) (admit-dropped s announce_roles b (admit-Admitted s _) (rw (e, offer) at d))
]
offer-dropped s (dismiss j o) b d = admit-dropped s (dismiss j o) b (admit-Admitted s _) d
offer-dropped s (sync m) b d = admit-dropped s (sync m) b (admit-Admitted s _) d
offer-dropped s (lock_changed l) b d = admit-dropped s (lock_changed l) b (admit-Admitted s _) d
offer-dropped s (close_all r) b d = admit-dropped s (close_all r) b (admit-Admitted s _) d
