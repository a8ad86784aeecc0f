-- ===== src/Clipboard/Suppressions/Held.antt =====
-- What `take` gives where the cache has the text (dedup.rs).
use anyflow.Prelude.{
  ℕ, suc, ◌≡◌, refl, true, some, List, [], ◌∷◌, any, position, is_some, Bytes, bytes_key, arith,
  Bool-cases, inl, inr,
}
use anyflow.Clipboard.Suppressions.{
  Suppressed, SuppressionCache, drop_expired, expire, take, has_hash, nth,
}

found :
    (hash : Bytes) (es : List Suppressed)
    → any (has_hash hash) es ≡ true
    → (index : ℕ) × (e : Suppressed) × ((position (has_hash hash) es ≡ some index)
        × (nth index es ≡ some e))
unfolding nth
found hash [] h = absurd (ground arith)
found hash (x ∷ es) h = elim (Bool-cases (has_hash hash x)) [
  | inl here ↦ (0, x, (ground arith, refl))
  | inr other ↦
      let (index, e, (at, it)) = found hash es (ground arith) in (suc index, e, (ground arith, it))
]

pub take-held :
    (now : ℕ) (hash : Bytes) (c : SuppressionCache)
    → any (has_hash hash) (drop_expired now c.ttl c.entries) ≡ true
    → is_some (take now hash c).1 ≡ true
unfolding take expire
take-held now hash c h =
    let (index, e, (at, it)) = found hash (drop_expired now c.ttl c.entries) h in
    rw (take, at, it) refl
