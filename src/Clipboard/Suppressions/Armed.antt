-- ===== src/Clipboard/Suppressions/Armed.antt =====
-- A text that was armed is held back, with its origin, and then no more (dedup.rs, `arm`, `take`).
use anyflow.Prelude.{
  ℕ, ◌-◌, ◌≤◌, ◌<◌, ◌≡◌, refl, ap, ◌∙◌, Option, none, some, List, [], ◌∷◌, ◌++◌, length,
  length-append, position, remove_at, Bytes, bytes_key, =?_refl, Option-cases, inl, inr, arith,
}
use anyflow.Clipboard.Events.{trim}
use anyflow.Clipboard.Suppressions.{
  Suppressed, SuppressionCache, drop_expired, expire, arm, has_hash, nth, origin_of, take,
}

position-push :
    (hash : Bytes) (e : Suppressed) (es : List Suppressed)
    → position (has_hash hash) es ≡ none
    → e.hash ≡ hash
    → (position (has_hash hash) (es ++ e ∷ []) ≡ some (length es))
      × (nth (length es) (es ++ e ∷ []) ≡ some e)
      × (remove_at (length es) (es ++ e ∷ []) ≡ es)
unfolding nth
position-push hash e [] n same = ground (arith, =?_refl hash)
position-push hash e (x ∷ es) n same = ground (arith, position-push hash e es)

-- A live entry at the end stops the dropping, if nothing before it does.
pub drop_expired-push :
    (now ttl : ℕ) (e : Suppressed) (es : List Suppressed)
    → now - e.at < ttl
    → drop_expired now ttl (es ++ e ∷ []) ≡ drop_expired now ttl es ++ e ∷ []
unfolding drop_expired
drop_expired-push now ttl e [] live = ground arith
drop_expired-push now ttl e (x ∷ es) live = ground (arith, drop_expired-push now ttl e es)

position-drop_expired :
    (hash : Bytes) (now ttl : ℕ) (es : List Suppressed)
    → position (has_hash hash) es ≡ none
    → position (has_hash hash) (drop_expired now ttl es) ≡ none
unfolding drop_expired
position-drop_expired hash now ttl [] n = refl
position-drop_expired hash now ttl (x ∷ es) n =
    ground (arith, position-drop_expired hash now ttl es)

length-drop_expired-le :
    (now ttl : ℕ) (es : List Suppressed) → length (drop_expired now ttl es) ≤ length es
unfolding drop_expired
length-drop_expired-le now ttl [] = omega arith
length-drop_expired-le now ttl (x ∷ es) = ground (arith, length-drop_expired-le now ttl es)

trim-fits : (capacity : ℕ) (es : List Suppressed) → length es ≤ capacity → trim capacity es ≡ es
unfolding trim
trim-fits capacity [] few = refl
trim-fits capacity (x ∷ es) few = ground arith

take-none :
    (c : SuppressionCache) (now : ℕ) (hash : Bytes)
    → position (has_hash hash) (drop_expired now c.ttl c.entries) ≡ none
    → (take now hash c).1 ≡ none
unfolding take expire
take-none c now hash n = ground arith

-- What `take` does once it has found an entry in what is live.
abbrev pub taken_at :
    SuppressionCache → List Suppressed → Option ℕ → SuppressionCache × Option Bytes
taken_at c live none = (record c { entries = live }, none)
taken_at c live (some index) =
    (record c { entries = remove_at index live }, origin_of (nth index live))

pub take-taken_at :
    (c : SuppressionCache) (now : ℕ) (hash : Bytes)
    → take now hash c
      ≡ taken_at c
          (drop_expired now c.ttl c.entries)
          (position (has_hash hash) (drop_expired now c.ttl c.entries))
unfolding take expire
take-taken_at c now hash =
    elim (Option-cases (position (has_hash hash) (drop_expired now c.ttl c.entries))) [
      | inl n ↦ rw (n, take) refl
      | inr (index, n) ↦ rw (n, take) refl
    ]

take-last :
    (c : SuppressionCache) (now : ℕ) (hash : Bytes) (es : List Suppressed) (e : Suppressed)
    → drop_expired now c.ttl c.entries ≡ es ++ e ∷ []
    → position (has_hash hash) es ≡ none
    → e.hash ≡ hash
    → take now hash c ≡ (record c { entries = es }, some e.origin_device_id)
take-last c now hash es e live n same =
    let (index, entry, gone) = position-push hash e es n same in
    take-taken_at c now hash
    ∙ ap (λ l. taken_at c l (position (has_hash hash) l)) live
    ∙ ap (taken_at c (es ++ e ∷ [])) index
    ∙ ap (λ l. (record c { entries = l }, origin_of (nth (length es) (es ++ e ∷ [])))) gone
    ∙ ap (λ o. (record c { entries = es }, origin_of o)) entry

-- A text that is armed while the cache has room and does not hold it is taken within its time to
-- live, with the origin it was armed with, and the next time it is not.
pub take-arm :
    (c : SuppressionCache) (now later again : ℕ) (hash origin : Bytes)
    → position (has_hash hash) c.entries ≡ none
    → length c.entries < c.capacity
    → later - now < c.ttl
    → let first = take later hash (arm now hash origin c) in
      (first.1 ≡ some origin) × ((take again hash first.0).1 ≡ none)
unfolding arm expire
take-arm c now later again hash origin fresh room live =
    let e : Suppressed = record { hash = hash; at = now; origin_device_id = origin } in
    let before = drop_expired now c.ttl c.entries in
    let here = drop_expired later c.ttl before in
    let kept =
      position-drop_expired hash later c.ttl before
        (position-drop_expired hash now c.ttl c.entries fresh) in
    let room' : length (before ++ e ∷ []) ≤ c.capacity =
      omega (arith, length-append before (e ∷ []), length-drop_expired-le now c.ttl c.entries) in
    let held : drop_expired later c.ttl (trim c.capacity (before ++ e ∷ [])) ≡ here ++ e ∷ [] =
      ap (drop_expired later c.ttl) (trim-fits c.capacity (before ++ e ∷ []) room')
      ∙ drop_expired-push later c.ttl e before live in
    let shape = take-last (arm now hash origin c) later hash here e held kept refl in
    let left : SuppressionCache = record c { entries = here } in
    let none_left = take-none left again hash (position-drop_expired hash again c.ttl here kept) in
    (
      ap (λ (x : SuppressionCache × Option Bytes). x.1) shape,
      ap (λ (x : SuppressionCache × Option Bytes). (take again hash x.0).1) shape ∙ none_left,
    )
