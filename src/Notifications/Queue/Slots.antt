-- ===== src/Notifications/Queue/Slots.antt =====
-- The backward scan of `upsert_slot` in desktop/capabilities/notifications/src/queue.rs, as a
-- recursion from the front.
use mathlib.Core.List.{reverse-cons}
use anyflow.Prelude.{ℕ, suc, ◌+◌, ◌≡◌, refl, List, [], ◌∷◌, ◌++◌, reverse, arith, if◌then◌else◌}
use anyflow.Notifications.Id.{NotificationId}
use anyflow.Notifications.Queue.{
  Work, is_barrier, is_upsert_of, Walk, found, blocked, clear, walk, enumerate, upsert_slot,
  slot_of,
}

-- What the scan of `w ∷ ws` finds, from what the scan of `ws` found before it reached `w`.
abbrev pub extend : NotificationId → Work → Walk → Walk
extend id w (found i) = found (suc i)
extend id w blocked = blocked
extend id w clear = if is_barrier w then blocked else if is_upsert_of id w then found 0 else clear

unfoldable pub scan : NotificationId → List Work → Walk
scan id [] = clear
scan id (w ∷ ws) = extend id w (scan id ws)

abbrev orelse : Walk → Walk → Walk
orelse (found i) r = found i
orelse blocked r = blocked
orelse clear r = r

abbrev shift : ℕ → Walk → Walk
shift n (found i) = found (n + i)
shift n blocked = blocked
shift n clear = clear

walk-append :
    (id : NotificationId) (xs ys : List (ℕ × Work))
    → walk id (xs ++ ys) ≡ orelse (walk id xs) (walk id ys)
unfolding walk
walk-append id [] ys = refl
walk-append id ((i, w) ∷ xs) ys = ground (arith, walk-append id xs ys)

walk-scan :
    (id : NotificationId) (n : ℕ) (ws : List Work)
    → walk id (reverse (enumerate n ws)) ≡ shift n (scan id ws)
unfolding walk enumerate scan
walk-scan id n [] = refl
walk-scan id n (w ∷ ws) =
    rw (reverse-cons (n, w) (enumerate (suc n) ws), walk-append id, walk-scan id (suc n) ws)
      (ground arith)

pub upsert_slot-scan :
    (id : NotificationId) (ws : List Work) → upsert_slot id ws ≡ slot_of (scan id ws)
unfolding upsert_slot
upsert_slot-scan id ws = rw (walk-scan id 0 ws) (ground arith)
