-- ===== src/Clipboard/Suppressions/Between.antt =====
-- A text that was armed stays, whatever is armed and taken of other texts in between (dedup.rs).
use anyflow.Prelude.{
  ℕ, zero, suc, ◌+◌, ◌-◌, ◌≤◌, ◌<◌, ◌≡◌, refl, ◌∙◌, Bool, true, false, Option, none, some, List, [],
  ◌∷◌, ◌++◌, length, length-append, any, position, remove_at, leb, ltb, is_some, if◌then◌else◌,
  Option-cases, Bytes, bytes_key, ◌=?◌, =?_refl, =?_iff, arith, Bool-cases, inl, inr,
}
use anyflow.Clipboard.Events.{trim}
use anyflow.Clipboard.Suppressions.{
  Suppressed, SuppressionCache, drop_expired, expire, arm, take, has_hash,
}
use anyflow.Clipboard.Suppressions.Armed.{taken_at, take-taken_at}
use anyflow.Clipboard.Suppressions.Held.{take-held}

-- An entry of the text that was armed at `at` stands in the cache, with at most `k` behind it.
pub data Held (hash : Bytes) (at : ℕ) : ℕ → List Suppressed → Type 0 where
  here :
      {k : ℕ} (e : Suppressed) (behind : List Suppressed)
      → (e.hash =? hash) ≡ true
      → e.at ≡ at
      → length behind ≤ k
      → Held hash at k (e ∷ behind)
  later :
      {k : ℕ} (x : Suppressed) {rest : List Suppressed}
      → Held hash at k rest
      → Held hash at k (x ∷ rest)

if-Held :
    (hash : Bytes) (at k : ℕ) (b : Bool) (xs ys : List Suppressed)
    → (b ≡ true → Held hash at k xs)
    → (b ≡ false → Held hash at k ys)
    → Held hash at k (if b then xs else ys)
if-Held hash at k true xs ys h g = h refl
if-Held hash at k false xs ys h g = g refl

pub Held-drop_expired :
    (now ttl : ℕ) (hash : Bytes) (at k : ℕ) (es : List Suppressed)
    → now - at < ttl
    → Held hash at k es
    → Held hash at k (drop_expired now ttl es)
unfolding drop_expired
Held-drop_expired now ttl hash at k _ fresh (here e behind same time few) =
    if-Held hash at k (leb ttl (now - e.at)) _ _ (λ old. absurd (ground arith))
      (λ live. here e behind same time few)
Held-drop_expired now ttl hash at k _ fresh (later x {rest} h) =
    if-Held hash at k (leb ttl (now - x.at)) _ _
      (λ old. Held-drop_expired now ttl hash at k rest fresh h) (λ live. later x h)

Held-push :
    (x : Suppressed) (hash : Bytes) (at k : ℕ) (es : List Suppressed)
    → Held hash at k es
    → Held hash at (k + 1) (es ++ x ∷ [])
Held-push x hash at k _ (here e behind same time few) =
    here e (behind ++ x ∷ []) same time (omega (arith, length-append behind (x ∷ [])))
Held-push x hash at k _ (later y {rest} h) = later y (Held-push x hash at k rest h)

Held-trim :
    (capacity : ℕ) (hash : Bytes) (at k : ℕ) (es : List Suppressed)
    → k < capacity
    → Held hash at k es
    → Held hash at k (trim capacity es)
unfolding trim
Held-trim capacity hash at k _ room (here e behind same time few) =
    if-Held hash at k (ltb capacity (length (e ∷ behind))) _ _ (λ over. absurd (ground arith))
      (λ fits. here e behind same time few)
Held-trim capacity hash at k _ room (later x {rest} h) =
    if-Held hash at k (ltb capacity (length (x ∷ rest))) _ _
      (λ over. Held-trim capacity hash at k rest room h) (λ fits. later x h)

Held-last : (e : Suppressed) (es : List Suppressed) → Held e.hash e.at 0 (es ++ e ∷ [])
Held-last e [] = here e [] (=?_refl e.hash) refl (omega arith)
Held-last e (x ∷ es) = later x (Held-last e es)

Held-weaken :
    (hash : Bytes) (at k : ℕ) (es : List Suppressed) → Held hash at k es → Held hash at (k + 1) es
Held-weaken hash at k _ (here e behind same time few) = here e behind same time (omega arith)
Held-weaken hash at k _ (later x {rest} h) = later x (Held-weaken hash at k rest h)

Held-any :
    (hash : Bytes) (at k : ℕ) (es : List Suppressed)
    → Held hash at k es
    → any (has_hash hash) es ≡ true
Held-any hash at k _ (here e behind same time few) = ground arith
Held-any hash at k _ (later x {rest} h) = ground (arith, Held-any hash at k rest h)

length-remove_at : (i : ℕ) (es : List Suppressed) → length (remove_at i es) ≤ length es
length-remove_at i [] = ground arith
length-remove_at zero (x ∷ es) = omega arith
length-remove_at (suc i) (x ∷ es) = omega (arith, length-remove_at i es)

abbrev without : List Suppressed → Option ℕ → List Suppressed
without es none = es
without es (some i) = remove_at i es

abbrev next_place : Option ℕ → Option ℕ
next_place none = none
next_place (some i) = some (suc i)

without-next :
    (x : Suppressed) (es : List Suppressed) (o : Option ℕ)
    → without (x ∷ es) (next_place o) ≡ x ∷ without es o
without-next x es none = refl
without-next x es (some i) = refl

without-le : (es : List Suppressed) (o : Option ℕ) → length (without es o) ≤ length es
without-le es none = omega arith
without-le es (some i) = length-remove_at i es

position-skip :
    (other : Bytes) (x : Suppressed) (es : List Suppressed)
    → has_hash other x ≡ false
    → position (has_hash other) (x ∷ es) ≡ next_place (position (has_hash other) es)
position-skip other x es h = elim (Option-cases (position (has_hash other) es)) [
  | inl n ↦ rw (h, n) refl
  | inr (i, n) ↦ rw (h, n) refl
]

-- Taking another text out leaves it in.
Held-without :
    (hash other : Bytes) (at k : ℕ) (es : List Suppressed)
    → (hash =? other) ≡ false
    → Held hash at k es
    → Held hash at k (without es (position (has_hash other) es))
Held-without hash other at k _ differs (here e behind same time few) =
    let skip : has_hash other e ≡ false = ground (arith, =?_iff e.hash hash) in
    rw (position-skip other e behind skip, without-next e behind (position (has_hash other) behind))
      (here e (without behind (position (has_hash other) behind)) same time
        (omega (arith, without-le behind (position (has_hash other) behind))))
Held-without hash other at k _ differs (later x {rest} h) = elim (Bool-cases (has_hash other x)) [
  | inl it ↦ rw it h
  | inr skip ↦
      rw (position-skip other x rest skip, without-next x rest (position (has_hash other) rest))
        (later x (Held-without hash other at k rest differs h))
]

taken_at-entries :
    (c : SuppressionCache) (live : List Suppressed) (o : Option ℕ)
    → ((taken_at c live o).0.entries ≡ without live o)
      × (((taken_at c live o).0.capacity ≡ c.capacity) × ((taken_at c live o).0.ttl ≡ c.ttl))
taken_at-entries c live none = (refl, (refl, refl))
taken_at-entries c live (some i) = (refl, (refl, refl))

-- A cache of this size and time to live, in which the text is held.
pub record Keeps (capacity ttl : ℕ) (hash : Bytes) (at k : ℕ) (c : SuppressionCache) : Type 0 where
  pub sized : c.capacity ≡ capacity
  pub timed : c.ttl ≡ ttl
  pub held : Held hash at k c.entries

module _ (capacity ttl : ℕ) (hash : Bytes) (at : ℕ) where
  pub take-Keeps :
      (k now : ℕ) (other : Bytes) (c : SuppressionCache)
      → (hash =? other) ≡ false
      → now - at < ttl
      → Keeps capacity ttl hash at k c
      → Keeps capacity ttl hash at k (take now other c).0
  take-Keeps k now other c differs fresh h =
      let live = drop_expired now c.ttl c.entries in
      let (entries, (sized, timed)) = taken_at-entries c live (position (has_hash other) live) in
      let fresh' : now - at < c.ttl = rw h.timed fresh in
      rw (take-taken_at c now other) record {
        sized = sized ∙ h.sized;
        timed = timed ∙ h.timed;
        held = rw entries (
            Held-without hash other at k live differs
              (Held-drop_expired now c.ttl hash at k c.entries fresh' h.held));
      }

  pub arm-Keeps :
      (k now : ℕ) (other origin : Bytes) (c : SuppressionCache)
      → now - at < ttl
      → k + 1 < capacity
      → Keeps capacity ttl hash at k c
      → Keeps capacity ttl hash at (k + 1) (arm now other origin c)
  unfolding arm expire
  arm-Keeps k now other origin c fresh room h =
      let e : Suppressed = record { hash = other; at = now; origin_device_id = origin } in
      let fresh' : now - at < c.ttl = rw h.timed fresh in
      let room' : k + 1 < c.capacity = rw h.sized room in
      record {
        sized = h.sized;
        timed = h.timed;
        held =
            Held-trim c.capacity hash at (k + 1) (drop_expired now c.ttl c.entries ++ e ∷ []) room'
              (Held-push e hash at k (drop_expired now c.ttl c.entries)
                (Held-drop_expired now c.ttl hash at k c.entries fresh' h.held));
      }

  pub weaken-Keeps :
      (k : ℕ) (c : SuppressionCache)
      → Keeps capacity ttl hash at k c
      → Keeps capacity ttl hash at (k + 1) c
  weaken-Keeps k c h = record {
    sized = h.sized;
    timed = h.timed;
    held = Held-weaken hash at k c.entries h.held;
  }

  pub take-kept :
      (k now : ℕ) (c : SuppressionCache)
      → now - at < ttl
      → Keeps capacity ttl hash at k c
      → is_some (take now hash c).1 ≡ true
  take-kept k now c fresh h =
      let fresh' : now - at < c.ttl = rw h.timed fresh in
      take-held now hash c
        (Held-any hash at k _ (Held-drop_expired now c.ttl hash at k c.entries fresh' h.held))

pub armed-Keeps :
    (at : ℕ) (hash origin : Bytes) (c : SuppressionCache)
    → 0 < c.capacity
    → Keeps c.capacity c.ttl hash at 0 (arm at hash origin c)
unfolding arm expire
armed-Keeps at hash origin c room =
    let e : Suppressed = record { hash = hash; at = at; origin_device_id = origin } in
    record {
      sized = refl;
      timed = refl;
      held =
          Held-trim c.capacity hash at 0 (drop_expired at c.ttl c.entries ++ e ∷ []) room
            (Held-last e (drop_expired at c.ttl c.entries));
    }
