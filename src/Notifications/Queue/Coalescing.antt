-- ===== src/Notifications/Queue/Coalescing.antt =====
-- When an upsert is merged into a pending one, and what the merge changes.
use anyflow.Prelude.{
  ℕ, ◌≡◌, refl, sym, ap, ◌∙◌, ◌≢◌, inl, inr, ◌↔◌, Bool, true, false, not, ◌&&◌, ◌||◌, List, [], ◌∷◌,
  ◌++◌, arith, any, set, =?_iff,
}
use anyflow.Notifications.Id.{NotificationId, id_key}
use anyflow.Notifications.Queue.Slots.{scan}
use anyflow.Notifications.Queue.Admit.{Admitted, fits, evicts, loses, admit-Admitted}
use anyflow.Notifications.Queue.Settled.{Slot, here, there, Slot-cases, is_found}
use anyflow.Notifications.Queue.{
  Work, Incoming, QueueState, Offered, coalesced, upsert, is_barrier, is_upsert_of, Walk, blocked,
  clear, offer,
}

-- An upsert for `id` is pending with no barrier behind it.
pub mergeable : NotificationId → List Work → Bool
mergeable id [] = false
mergeable id (w ∷ ws) = mergeable id ws || (is_upsert_of id w && not (any is_barrier ws))

abbrev is_clear : Walk → Bool
is_clear clear = true
is_clear _ = false

scan-mergeable :
    (id : NotificationId) (ws : List Work)
    → (is_found (scan id ws) ≡ mergeable id ws)
      × (is_clear (scan id ws) ≡ true
          → (any is_barrier ws ≡ false) × (any (is_upsert_of id) ws ≡ false))
      × (scan id ws ≡ blocked → any is_barrier ws ≡ true)
unfolding scan mergeable
scan-mergeable id [] = (refl, λ c. (refl, refl), λ b. cc)
scan-mergeable id (w ∷ ws) =
    let (ih, plain, barred) = scan-mergeable id ws in
    (ground arith, λ c. ground arith, λ b. ground arith)

Slot-found :
    {id : NotificationId} {i : ℕ} {ws : List Work} → Slot id ws i → is_found (scan id ws) ≡ true
unfolding scan
Slot-found (here old same c) = ground arith
Slot-found (there w s e) = ground arith

admit-ne-coalesced :
    (s : QueueState) (w : Work) {r : QueueState × Offered} → Admitted s w r → r.1 ≢ coalesced
admit-ne-coalesced s w (fits room e) = λ c. ground arith
admit-ne-coalesced s w (evicts i full p e) = λ c. ground arith
admit-ne-coalesced s w (loses full p e) = λ c. ground arith

-- `offer` coalesces an upsert exactly when one for the same identity is pending with no barrier
-- behind it.
pub offer_coalesced_iff :
    (s : QueueState) (incoming : Incoming)
    → ((offer s (upsert incoming)).1 ≡ coalesced) ↔ (mergeable incoming.id s.items ≡ true)
unfolding offer
offer_coalesced_iff s incoming = elim (Slot-cases incoming.id s.items) [
  | inl (e, n) ↦ (
    λ c. absurd (admit-ne-coalesced s _ (admit-Admitted s _) (rw (e, offer) at c)),
    λ m. absurd (ground (arith, (scan-mergeable incoming.id s.items).0)),
  )
  | inr (i, e, slot) ↦
      (λ c. sym (scan-mergeable incoming.id s.items).0 ∙ Slot-found slot, λ m. rw (e, offer))
]

-- A queue before and after `w` took the place of the newest pending upsert for `id`.
pub record IsMerge (id : NotificationId) (w : Work) (before after : List Work) : Type 0 where
  pub pre : List Work
  pub old : Incoming
  pub post : List Work
  pub was : before ≡ pre ++ upsert old ∷ post
  pub same : old.id ≡ id
  pub unbarred : any is_barrier post ≡ false
  pub unique : any (is_upsert_of id) post ≡ false
  pub now : after ≡ pre ++ w ∷ post

Slot-IsMerge :
    {id : NotificationId} {i : ℕ} {ws : List Work} (w : Work)
    → Slot id ws i
    → IsMerge id w ws (set ws i w)
Slot-IsMerge {id} w (here old {ws} same c) =
    let (plain, none_left) = (scan-mergeable id ws).1 (ap is_clear c) in
    record {
      pre = [];
      old = old;
      post = ws;
      was = refl;
      same = (=?_iff old.id id).0 same;
      unbarred = plain;
      unique = none_left;
      now = refl;
    }
Slot-IsMerge w (there v s e) =
    let m = Slot-IsMerge w s in
    record {
      pre = v ∷ m.pre;
      old = m.old;
      post = m.post;
      was = ap (◌∷◌ v) m.was;
      same = m.same;
      unbarred = m.unbarred;
      unique = m.unique;
      now = ap (◌∷◌ v) m.now;
    }

-- A coalesced upsert stands where the newest pending one for its identity stood; the items before
-- and behind it are as they were, with no barrier and no other upsert for the identity behind it.
pub offer_coalesced-IsMerge :
    (s : QueueState) (incoming : Incoming)
    → (offer s (upsert incoming)).1 ≡ coalesced
    → IsMerge incoming.id (upsert incoming) s.items (offer s (upsert incoming)).0.items
unfolding offer
offer_coalesced-IsMerge s incoming c = elim (Slot-cases incoming.id s.items) [
  | inl (e, n) ↦ absurd (admit-ne-coalesced s _ (admit-Admitted s _) (rw (e, offer) at c))
  | inr (i, e, slot) ↦ rw (e, offer) (Slot-IsMerge (upsert incoming) slot)
]
