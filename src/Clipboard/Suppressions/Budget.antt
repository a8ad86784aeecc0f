-- ===== src/Clipboard/Suppressions/Budget.antt =====
-- A text that this device put on its clipboard is held back once for each time (dedup.rs).
use anyflow.Prelude.{
  ℕ, ◌+◌, ◌≤◌, ◌≡◌, Bool, false, ◌&&◌, some, is_some, List, [], ◌∷◌, ◌++◌, length, keep,
  keep-append, length-append, position, remove_at, if◌then◌else◌, Bytes, bytes_key, ◌=?◌, =?_iff,
  Option-cases, inl, inr, arith,
}
use anyflow.Clipboard.Events.{trim}
use anyflow.Clipboard.Suppressions.{
  Suppressed, SuppressionCache, drop_expired, expire, arm, has_hash, take,
}

-- The entries armed with a text.
abbrev count : Bytes → List Suppressed → ℕ
count hash es = length (keep (has_hash hash) es)

count-drop_expired :
    (hash : Bytes) (now ttl : ℕ) (es : List Suppressed)
    → count hash (drop_expired now ttl es) ≤ count hash es
unfolding drop_expired
count-drop_expired hash now ttl [] = omega arith
count-drop_expired hash now ttl (e ∷ es) = ground (arith, count-drop_expired hash now ttl es)

count-trim :
    (hash : Bytes) (capacity : ℕ) (es : List Suppressed)
    → count hash (trim capacity es) ≤ count hash es
unfolding trim
count-trim hash capacity [] = omega arith
count-trim hash capacity (e ∷ es) = ground (arith, count-trim hash capacity es)

count-push :
    (hash : Bytes) (e : Suppressed) (es : List Suppressed)
    → count hash (es ++ e ∷ []) ≡ count hash es + (if has_hash hash e then 1 else 0)
count-push hash e es = ground (
  arith,
  keep-append (has_hash hash) es (e ∷ []),
  length-append (keep (has_hash hash) es) (keep (has_hash hash) (e ∷ [])),
)

count-remove_at :
    (hash other : Bytes) (es : List Suppressed) (index : ℕ)
    → position (has_hash other) es ≡ some index
    → count hash (remove_at index es) + (if hash =? other then 1 else 0) ≡ count hash es
count-remove_at hash other [] index e = cc
count-remove_at hash other (x ∷ es) index e = elim (Option-cases (position (has_hash other) es)) [
  | inl n ↦ ground (arith, =?_iff x.hash other, =?_iff x.hash hash, =?_iff hash other)
  | inr (k, n) ↦ ground (
    arith,
    count-remove_at hash other es k n,
    =?_iff x.hash other,
    =?_iff x.hash hash,
    =?_iff hash other,
  )
]

-- What is asked of the cache, each with its time.
pub data Step : Type 0 where
  arms : ℕ → Bytes → Bytes → Step
  takes : ℕ → Bytes → Step

abbrev one_if : Bool → ℕ
one_if b = if b then 1 else 0

unfoldable pub step : SuppressionCache → Step → SuppressionCache
step c (arms now hash origin) = arm now hash origin c
step c (takes now hash) = (take now hash c).0

-- The times that a text was armed, and the times that it was taken.
abbrev pub armed : Bytes → List Step → ℕ
armed hash [] = 0
armed hash (arms now other origin ∷ rest) = (if hash =? other then 1 else 0) + armed hash rest
armed hash (takes now other ∷ rest) = armed hash rest

abbrev pub was_taken : Bytes → SuppressionCache → Step → Bool
was_taken hash c (arms now other origin) = false
was_taken hash c (takes now other) = hash =? other && is_some (take now other c).1

unfoldable pub taken : Bytes → SuppressionCache → List Step → ℕ
unfolding step
taken hash c [] = 0
taken hash c (s ∷ rest) = (if was_taken hash c s then 1 else 0) + taken hash (step c s) rest

arm-count :
    (hash : Bytes) (c : SuppressionCache) (now : ℕ) (other origin : Bytes)
    → count hash (arm now other origin c).entries
      ≤ count hash c.entries + (if hash =? other then 1 else 0)
unfolding arm expire
arm-count hash c now other origin =
    let e : Suppressed = record { hash = other; at = now; origin_device_id = origin } in
    let live = drop_expired now c.ttl c.entries in
    ground (
      arith,
      count-trim hash c.capacity (live ++ e ∷ []),
      count-push hash e live,
      count-drop_expired hash now c.ttl c.entries,
      =?_iff hash other,
      =?_iff other hash,
    )

take-count :
    (hash : Bytes) (c : SuppressionCache) (now : ℕ) (other : Bytes)
    → count hash (take now other c).0.entries
        + (if hash =? other && is_some (take now other c).1 then 1 else 0)
      ≤ count hash c.entries
unfolding take expire
take-count hash c now other =
    let live = drop_expired now c.ttl c.entries in
    let fewer = count-drop_expired hash now c.ttl c.entries in
    elim (Option-cases (position (has_hash other) live)) [
      | inl n ↦ ground arith
      | inr (index, n) ↦ ground (arith, count-remove_at hash other live index n)
    ]

-- However arming and taking are interleaved, and whenever, a text is held back at most as often as it
-- was armed, counting what the cache held before.
pub taken_budget :
    (hash : Bytes) (c : SuppressionCache) (steps : List Step)
    → taken hash c steps ≤ length (keep (has_hash hash) c.entries) + armed hash steps
unfolding taken step
taken_budget hash c [] = omega arith
taken_budget hash c (arms now other origin ∷ rest) =
    omega
      (arith, arm-count hash c now other origin, taken_budget hash (arm now other origin c) rest)
taken_budget hash c (takes now other ∷ rest) =
    omega (arith, take-count hash c now other, taken_budget hash (take now other c).0 rest)
