-- ===== src/Notifications/Queue/Settled.antt =====
-- Between two barriers of the queue an upsert is the last item for its identity, whatever is
-- offered: what coalescing, superseding and eviction in queue.rs keep.
use anyflow.Prelude.{
  ℕ, zero, suc, ◌≡◌, refl, ◌⊎◌, inl, inr, Bool, true, false, not, ◌&&◌, ◌||◌, none, some, List, [],
  ◌∷◌, ◌++◌, arith, any, set, remove_at, position, ◌=?◌, =?_iff, =?_refl, Bool-cases, Option-cases,
  subst, ap, ◌∙◌,
}
use anyflow.Notifications.Id.{NotificationId, id_key}
use anyflow.Notifications.Queue.Slots.{scan, extend, upsert_slot-scan}
use anyflow.Notifications.Queue.{
  Work, Incoming, QueueState, announce_roles, upsert, remove, dismiss, sync, lock_changed,
  close_all, is_announce, is_barrier, is_terminal, Walk, found, blocked, clear, slot_of,
  upsert_slot, admit, push, offer,
}

abbrev pub mentions : NotificationId → Work → Bool
mentions id (upsert incoming) = incoming.id =? id
mentions id (remove j) = j =? id
mentions id _ = false

-- Nothing shows or removes `id` before the next barrier.
unfoldable pub quiet : NotificationId → List Work → Bool
quiet id [] = true
quiet id (w ∷ ws) = is_barrier w || (not (mentions id w) && quiet id ws)

abbrev pub lone : Work → List Work → Bool
lone (upsert incoming) ws = quiet incoming.id ws
lone _ ws = true

unfoldable pub settled : List Work → Bool
settled [] = true
settled (w ∷ ws) = lone w ws && settled ws

abbrev pub IsSettled : QueueState → Type 0
IsSettled s = settled s.items ≡ true

abbrev pub is_found : Walk → Bool
is_found (found i) = true
is_found _ = false

-- Where the scan stops: at an upsert for `id` with neither a barrier nor another one behind it.
pub data Slot (id : NotificationId) : List Work → ℕ → Type 0 where
  here :
      (old : Incoming) {ws : List Work}
      → (old.id =? id) ≡ true
      → scan id ws ≡ clear
      → Slot id (upsert old ∷ ws) zero
  there :
      (w : Work) {ws : List Work} {i : ℕ}
      → Slot id ws i
      → scan id ws ≡ found i
      → Slot id (w ∷ ws) (suc i)

extend-Slot :
    (id : NotificationId) (w : Work) (ws : List Work) (r : Walk) (i : ℕ)
    → scan id ws ≡ r
    → extend id w r ≡ found i
    → ((k : ℕ) → r ≡ found k → Slot id ws k)
    → Slot id (w ∷ ws) i
extend-Slot id w ws (found k) i e h rec =
    subst (Slot id (w ∷ ws)) (ground arith) (there w (rec k refl) e)
extend-Slot id w ws blocked i e h rec = cc
extend-Slot id (upsert old) ws clear i e h rec = elim (Bool-cases (old.id =? id)) [
  | inl same ↦ subst (Slot id (upsert old ∷ ws)) (ground arith) (here old same e)
  | inr other ↦ absurd (ground arith)
]
extend-Slot id announce_roles ws clear i e h rec = cc
extend-Slot id (remove j) ws clear i e h rec = cc
extend-Slot id (dismiss j o) ws clear i e h rec = cc
extend-Slot id (sync m) ws clear i e h rec = cc
extend-Slot id (lock_changed b) ws clear i e h rec = cc
extend-Slot id (close_all r) ws clear i e h rec = cc

scan-Slot : (id : NotificationId) (ws : List Work) (i : ℕ) → scan id ws ≡ found i → Slot id ws i
unfolding scan
scan-Slot id [] i e = cc
scan-Slot id (w ∷ ws) i e = extend-Slot id w ws (scan id ws) i refl e (λ k. scan-Slot id ws k)

quiet-set :
    {id : NotificationId} {i : ℕ} {ws : List Work} (j : NotificationId) (incoming : Incoming)
    → Slot id ws i
    → incoming.id ≡ id
    → quiet j (set ws i (upsert incoming)) ≡ quiet j ws
unfolding quiet
quiet-set {id} j incoming (here old same c) e = ground (arith, =?_iff old.id id)
quiet-set j incoming (there w s e) h = ground (arith, quiet-set j incoming s h)

settled-set :
    {id : NotificationId} {i : ℕ} {ws : List Work} (incoming : Incoming)
    → Slot id ws i
    → incoming.id ≡ id
    → settled (set ws i (upsert incoming)) ≡ settled ws
unfolding settled
settled-set {id} incoming (here old same c) e = ground (arith, =?_iff old.id id)
settled-set incoming (there (upsert x) s e) h =
    ground (arith, settled-set incoming s h, quiet-set x.id incoming s h)
settled-set incoming (there w s e) h = ground (arith, settled-set incoming s h)

quiet-remove :
    {id : NotificationId} {i : ℕ} {ws : List Work} (j : NotificationId)
    → Slot id ws i
    → quiet j ws ≡ true
    → quiet j (remove_at i ws) ≡ true
unfolding quiet
quiet-remove j (here old same c) q = ground arith
quiet-remove j (there w s e) q = ground (arith, quiet-remove j s)

settled-remove :
    {id : NotificationId} {i : ℕ} {ws : List Work}
    → Slot id ws i
    → settled ws ≡ true
    → settled (remove_at i ws) ≡ true
unfolding settled
settled-remove (here old same c) h = ground arith
settled-remove (there (upsert x) s e) h = ground (arith, settled-remove s, quiet-remove x.id s)
settled-remove (there w s e) h = ground (arith, settled-remove s)

-- Once its slot is taken out, the scan for `id` finds nothing.
scan-remove :
    {id : NotificationId} {i : ℕ} {ws : List Work}
    → Slot id ws i
    → settled ws ≡ true
    → (is_found (scan id (remove_at i ws)) ≡ false)
      × (quiet id ws ≡ true → scan id (remove_at i ws) ≡ blocked)
unfolding settled scan quiet
scan-remove {id} (here old same c) h = (ground arith, λ q. ground arith)
scan-remove {id} (there (upsert x) s e) h =
    let (none_left, barred) = scan-remove s (ground arith) in
    (ground (arith, =?_iff x.id id), λ q. ground (arith, =?_iff x.id id))
scan-remove {id} (there w s e) h =
    let (none_left, barred) = scan-remove s (ground arith) in (ground arith, λ q. ground arith)

quiet-push_barred :
    (j : NotificationId) (v : Work) (ws : List Work)
    → quiet j ws ≡ true
    → scan j ws ≡ blocked
    → quiet j (ws ++ v ∷ []) ≡ true
unfolding quiet scan
quiet-push_barred j v [] q b = cc
quiet-push_barred j v (w ∷ ws) q b = ground (arith, quiet-push_barred j v ws)

quiet-push_other :
    (j : NotificationId) (v : Work) (ws : List Work)
    → quiet j ws ≡ true
    → mentions j v ≡ false
    → quiet j (ws ++ v ∷ []) ≡ true
unfolding quiet
quiet-push_other j v [] q m = ground arith
quiet-push_other j v (w ∷ ws) q m = ground (arith, quiet-push_other j v ws)

abbrev pub IsFresh : Work → List Work → Type 0
IsFresh v ws = (id : NotificationId) → mentions id v ≡ true → is_found (scan id ws) ≡ false

settled-push :
    (v : Work) (ws : List Work) → settled ws ≡ true → IsFresh v ws → settled (ws ++ v ∷ []) ≡ true
unfolding settled scan quiet
settled-push v [] h f = ground arith
settled-push v (upsert x ∷ ws) h f = ground (
  arith,
  settled-push v ws (ground arith) (λ id m. ground (arith, f id m)),
  f x.id,
  quiet-push_barred x.id v ws,
  quiet-push_other x.id v ws,
  =?_refl x.id,
)
settled-push v (w ∷ ws) h f =
    ground (arith, settled-push v ws (ground arith) (λ id m. ground (arith, f id m)))

abbrev is_losable : Work → Bool
is_losable w = not (is_terminal w)

settled-evict :
    (ws : List Work) (i : ℕ)
    → position is_losable ws ≡ some i
    → settled ws ≡ true
    → settled (remove_at i ws) ≡ true
unfolding settled
settled-evict [] i p h = cc
settled-evict (w ∷ ws) i p h = elim (Option-cases (position is_losable ws)) [
  | inl e ↦ ground (arith)
  | inr (k, e) ↦ ground (arith, settled-evict ws k e)
]

scan-evict :
    (id : NotificationId) (ws : List Work) (i : ℕ)
    → position is_losable ws ≡ some i
    → is_found (scan id ws) ≡ false
    → is_found (scan id (remove_at i ws)) ≡ false
unfolding scan
scan-evict id [] i p h = cc
scan-evict id (w ∷ ws) i p h = elim (Option-cases (position is_losable ws)) [
  | inl e ↦ ground arith
  | inr (k, e) ↦ ground (arith, scan-evict id ws k e)
]

admit-IsSettled :
    (s : QueueState) (w : Work) → IsSettled s → IsFresh w s.items → IsSettled (admit s w).0
unfolding admit push
admit-IsSettled s w h f = elim (Option-cases (position is_losable s.items)) [
  | inl e ↦ ground (arith, settled-push w s.items h f)
  | inr (i, e) ↦ ground (
    arith,
    settled-push w s.items h f,
    settled-push w (remove_at i s.items) (settled-evict s.items i e h)
        (λ id m. scan-evict id s.items i e (f id m)),
  )
]

IsFresh-upsert :
    (incoming : Incoming) (ws : List Work)
    → is_found (scan incoming.id ws) ≡ false
    → IsFresh (upsert incoming) ws
IsFresh-upsert incoming ws e id m = rw (← (=?_iff incoming.id id).0 m) e

IsFresh-remove :
    (j : NotificationId) (ws : List Work) → is_found (scan j ws) ≡ false → IsFresh (remove j) ws
IsFresh-remove j ws e id m = rw (← (=?_iff j id).0 m) e

-- The cases of the slot that `offer` looks up.
pub Slot-cases :
    (id : NotificationId) (ws : List Work)
    → ((upsert_slot id ws ≡ none) × (is_found (scan id ws) ≡ false))
      ⊎ ((i : ℕ) × (upsert_slot id ws ≡ some i) × Slot id ws i)
Slot-cases id ws = go (scan id ws) refl
  where
    go :
        (r : Walk)
        → scan id ws ≡ r
        → ((upsert_slot id ws ≡ none) × (is_found (scan id ws) ≡ false))
          ⊎ ((i : ℕ) × (upsert_slot id ws ≡ some i) × Slot id ws i)
    go (found i) e = inr (i, upsert_slot-scan id ws ∙ ap slot_of e, scan-Slot id ws i e)
    go blocked e = inl (upsert_slot-scan id ws ∙ ap slot_of e, ap is_found e)
    go clear e = inl (upsert_slot-scan id ws ∙ ap slot_of e, ap is_found e)

-- Every offer keeps the queue settled: between two barriers, nothing behind an upsert shows or
-- removes the same identity. It holds of the empty queue, and through coalescing, superseding,
-- eviction and a drop.
pub offer-IsSettled : (s : QueueState) (w : Work) → IsSettled s → IsSettled (offer s w).0
unfolding offer
offer-IsSettled s (upsert incoming) h = elim (Slot-cases incoming.id s.items) [
  | inl (e, n) ↦
      rw (e, offer) (admit-IsSettled s (upsert incoming) h (IsFresh-upsert incoming s.items n))
  | inr (i, e, slot) ↦ rw (e, offer, settled-set incoming slot refl) h
]
offer-IsSettled s (remove j) h = elim (Slot-cases j s.items) [
  | inl (e, n) ↦ rw (e, offer) (admit-IsSettled s (remove j) h (IsFresh-remove j s.items n))
  | inr (i, e, slot) ↦
      rw (e, offer)
        (admit-IsSettled _ (remove j) (settled-remove slot h)
          (IsFresh-remove j _ (scan-remove slot h).0))
]
offer-IsSettled s announce_roles h = elim (Bool-cases (any is_announce s.items)) [
  | inl e ↦ rw (e, offer) h
  | inr e ↦ rw (e, offer) (admit-IsSettled s announce_roles h (λ id m. cc))
]
offer-IsSettled s (dismiss j o) h = admit-IsSettled s (dismiss j o) h (λ id m. cc)
offer-IsSettled s (sync m) h = admit-IsSettled s (sync m) h (λ id e. cc)
offer-IsSettled s (lock_changed b) h = admit-IsSettled s (lock_changed b) h (λ id m. cc)
offer-IsSettled s (close_all r) h = admit-IsSettled s (close_all r) h (λ id m. cc)
