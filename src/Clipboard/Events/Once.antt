-- ===== src/Clipboard/Events/Once.antt =====
-- An event is admitted once, while it is remembered (dedup.rs, `admit`).
use anyflow.Prelude.{
  ℕ, ◌+◌, ◌-◌, ◌≤◌, ◌<◌, ◌≡◌, refl, Bool, true, false, not, List, [], ◌∷◌, ◌++◌, length,
  length-append, any, all, leb, ltb, if◌then◌else◌, Bytes, bytes_key, ◌=?◌, =?_refl, arith, subst,
  ap, ◌∙◌,
}
use anyflow.Clipboard.Events.{Entry, EventCache, drop_expired, expire, trim, admit}

-- An entry stands in the cache with at most `k` entries behind it.
pub data Held (e : Entry) : ℕ → List Entry → Type 0 where
  here : {k : ℕ} (behind : List Entry) → length behind ≤ k → Held e k (e ∷ behind)
  later : {k : ℕ} (x : Entry) {rest : List Entry} → Held e k rest → Held e k (x ∷ rest)

if-Held :
    (e : Entry) (k : ℕ) (b : Bool) (xs ys : List Entry)
    → (b ≡ true → Held e k xs)
    → (b ≡ false → Held e k ys)
    → Held e k (if b then xs else ys)
if-Held e k true xs ys h g = h refl
if-Held e k false xs ys h g = g refl

-- A live entry is not dropped, nor any that is behind it.
Held-drop_expired :
    (now ttl : ℕ) (id : Bytes) (at k : ℕ) (es : List Entry)
    → now - at < ttl
    → Held (id, at) k es
    → Held (id, at) k (drop_expired now ttl es)
unfolding drop_expired
Held-drop_expired now ttl id at k _ fresh (here behind few) =
    if-Held (id, at) k (leb ttl (now - at)) _ _ (λ old. absurd (ground arith))
      (λ live. here behind few)
Held-drop_expired now ttl id at k _ fresh (later x {rest} h) =
    if-Held (id, at) k (leb ttl (now - x.1)) _ _
      (λ old. Held-drop_expired now ttl id at k rest fresh h) (λ live. later x h)

Held-push : (e x : Entry) (k : ℕ) (es : List Entry) → Held e k es → Held e (k + 1) (es ++ x ∷ [])
Held-push e x k _ (here behind few) =
    here (behind ++ x ∷ []) (omega (arith, length-append behind (x ∷ [])))
Held-push e x k _ (later y {rest} h) = later y (Held-push e x k rest h)

-- Trimming takes entries from the front, down to the capacity.
Held-trim :
    (e : Entry) (capacity k : ℕ) (es : List Entry)
    → k < capacity
    → Held e k es
    → Held e k (trim capacity es)
unfolding trim
Held-trim e capacity k _ room (here behind few) =
    if-Held e k (ltb capacity (length (e ∷ behind))) _ _ (λ over. absurd (ground arith))
      (λ fits. here behind few)
Held-trim e capacity k _ room (later x {rest} h) =
    if-Held e k (ltb capacity (length (x ∷ rest))) _ _ (λ over. Held-trim e capacity k rest room h)
      (λ fits. later x h)

Held-last : (e : Entry) (es : List Entry) → Held e 0 (es ++ e ∷ [])
Held-last e [] = here [] (omega arith)
Held-last e (x ∷ es) = later x (Held-last e es)

Held-weaken : (e : Entry) (k : ℕ) (es : List Entry) → Held e k es → Held e (k + 1) es
Held-weaken e k _ (here behind few) = here behind (omega arith)
Held-weaken e k _ (later x {rest} h) = later x (Held-weaken e k rest h)

Held-any :
    (id : Bytes) (at k : ℕ) (es : List Entry)
    → Held (id, at) k es
    → any (λ (x : Entry). x.0 =? id) es ≡ true
Held-any id at k _ (here behind few) = ground (arith, =?_refl id)
Held-any id at k _ (later x {rest} h) = ground (arith, Held-any id at k rest h)

admit-kept :
    (c : EventCache) (now : ℕ) (event_id : Bytes)
    → ((admit now event_id c).0.capacity ≡ c.capacity) × ((admit now event_id c).0.ttl ≡ c.ttl)
unfolding admit expire
admit-kept c now event_id = ground arith

abbrev is_of : Bytes → Entry → Bool
is_of id x = x.0 =? id

admit-entries :
    (c : EventCache) (now : ℕ) (event_id : Bytes)
    → (admit now event_id c).0.entries ≡ (
        if any (is_of event_id) (drop_expired now c.ttl c.entries)
        then drop_expired now c.ttl c.entries
        else trim c.capacity (drop_expired now c.ttl c.entries ++ (event_id, now) ∷ []))
unfolding admit expire
admit-entries c now event_id = ground arith

admit-answer :
    (c : EventCache) (now : ℕ) (event_id : Bytes)
    → (admit now event_id c).1 ≡ not (any (is_of event_id) (drop_expired now c.ttl c.entries))
unfolding admit expire
admit-answer c now event_id = ground arith

-- Another event, admitted or not, leaves at most one more entry behind it.
admit-Held :
    (c : EventCache) (now : ℕ) (event_id id : Bytes) (at k : ℕ)
    → now - at < c.ttl
    → k + 1 < c.capacity
    → Held (id, at) k c.entries
    → Held (id, at) (k + 1) (admit now event_id c).0.entries
admit-Held c now event_id id at k fresh room h =
    let live = drop_expired now c.ttl c.entries in
    let kept = Held-drop_expired now c.ttl id at k c.entries fresh h in
    rw (admit-entries c now event_id) (
      if-Held (id, at) (k + 1) (any (is_of event_id) live) _ _
        (λ seen. Held-weaken (id, at) k live kept)
        (λ new_one.
          Held-trim (id, at) c.capacity (k + 1) _ room
            (Held-push (id, at) (event_id, now) k live kept)))

admitted-Held :
    (c : EventCache) (at : ℕ) (id : Bytes)
    → 0 < c.capacity
    → (admit at id c).1 ≡ true
    → Held (id, at) 0 (admit at id c).0.entries
admitted-Held c at id room first_time =
    let live = drop_expired at c.ttl c.entries in
    let answer = admit-answer c at id in
    rw (admit-entries c at id) (
      if-Held (id, at) 0 (any (is_of id) live) _ _ (λ seen. absurd (ground arith))
        (λ new_one. Held-trim (id, at) c.capacity 0 _ room (Held-last (id, at) live)))

-- Events that come in one after another, each with its time.
unfoldable pub run : EventCache → List Entry → EventCache
run c [] = c
run c ((event_id, now) ∷ rest) = run (admit now event_id c).0 rest

run-Held :
    (c : EventCache) (es : List Entry) (id : Bytes) (at k : ℕ)
    → all (λ (x : Entry). ltb (x.1 - at) c.ttl) es ≡ true
    → k + length es < c.capacity
    → Held (id, at) k c.entries
    → Held (id, at) (k + length es) (run c es).entries × ((run c es).ttl ≡ c.ttl)
unfolding run
run-Held c [] id at k near room h = (subst (λ n. Held (id, at) n c.entries) (omega arith) h, refl)
run-Held c ((event_id, now) ∷ es) id at k near room h =
    let c' = (admit now event_id c).0 in
    let (same_capacity, same_ttl) = admit-kept c now event_id in
    let near' : all (λ (x : Entry). ltb (x.1 - at) c'.ttl) es ≡ true = rw same_ttl (ground arith) in
    let (held, ttl) =
      run-Held c' es id at (k + 1) near' (omega arith)
        (admit-Held c now event_id id at k (ground arith) (omega arith) h) in
    (subst (λ n. Held (id, at) n (run c' es).entries) (omega arith) held, ttl ∙ same_ttl)

-- An event that was admitted is not admitted again before its time to live is over, whatever events
-- came in between, as long as they are fewer than the capacity.
pub admit_once :
    (c : EventCache) (id : Bytes) (at now : ℕ) (es : List Entry)
    → (admit at id c).1 ≡ true
    → all (λ (x : Entry). ltb (x.1 - at) c.ttl) es ≡ true
    → now - at < c.ttl
    → length es < c.capacity
    → (admit now id (run (admit at id c).0 es)).1 ≡ false
admit_once c id at now es first_time near fresh few =
    let c' = (admit at id c).0 in
    let (same_capacity, same_ttl) = admit-kept c at id in
    let near' : all (λ (x : Entry). ltb (x.1 - at) c'.ttl) es ≡ true = rw same_ttl near in
    let (held, ttl) =
      run-Held c' es id at 0 near' (omega arith) (admitted-Held c at id (omega arith) first_time) in
    let last = run c' es in
    let live =
      Held-any id at _ _
        (Held-drop_expired now last.ttl id at (0 + length es) last.entries (omega arith) held) in
    admit-answer last now id ∙ ap not live
