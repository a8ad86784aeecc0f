-- ===== src/Notifications/Queue/Admit.antt =====
-- The second half of `offer` in desktop/capabilities/notifications/src/queue.rs, case by case.
use anyflow.Prelude.{
  ℕ, ◌≤◌, ◌<◌, ◌≡◌, inl, inr, Bool, not, none, some, arith, length, position, remove_at, leb,
  Bool-cases, Option-cases,
}
use anyflow.Notifications.Queue.{
  Work, QueueState, Offered, queued, evicted, dropped, is_terminal, max_queued_work, count_up, push,
  admit,
}

abbrev pub is_losable : Work → Bool
is_losable w = not (is_terminal w)

-- The state from which the item at `i` was evicted, and the one in which a drop was counted.
abbrev pub evict : QueueState → ℕ → QueueState
evict s i = record s { items = remove_at i s.items; evicted = count_up s.evicted }

abbrev pub lose : QueueState → QueueState
lose s = record s { dropped_terminal = count_up s.dropped_terminal }

pub data Admitted (s : QueueState) (w : Work) (r : QueueState × Offered) : Type 0 where
  fits : length s.items < max_queued_work → r ≡ (push s w, queued) → Admitted s w r
  evicts :
      (i : ℕ)
      → max_queued_work ≤ length s.items
      → position is_losable s.items ≡ some i
      → r ≡ (push (evict s i) w, evicted)
      → Admitted s w r
  loses :
      max_queued_work ≤ length s.items
      → position is_losable s.items ≡ none
      → r ≡ (lose s, dropped)
      → Admitted s w r

pub admit-Admitted : (s : QueueState) (w : Work) → Admitted s w (admit s w)
unfolding admit
admit-Admitted s w = elim (Bool-cases (leb max_queued_work (length s.items))) [
  | inl full ↦ elim (Option-cases (position is_losable s.items)) [
    | inl e ↦ loses (ground arith) e (rw (full, admit, e))
    | inr (i, e) ↦ evicts i (ground arith) e (rw (full, admit, e))
  ]
  | inr room ↦ fits (ground arith) (rw (room, admit))
]
