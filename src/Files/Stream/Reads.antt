-- ===== src/Files/Stream/Reads.antt =====
-- One read of a stream (stream.rs): a beginning of the next chunk, and what is left.
use mathlib.Core.List.{append-nil}
use anyflow.Prelude.{
  ℕ, zero, suc, ◌≤◌, ◌<◌, ◌≡◌, refl, ap, false, List, [], ◌∷◌, ◌++◌, length, take, drop, is_nil,
  leb, if◌then◌else◌, Bytes, arith, Bool-cases, inl, inr, take-append-drop,
}
use anyflow.Files.Stream.{Event, chunk, read_bytes, read_chunk}

length-take : (n : ℕ) (xs : Bytes) → n ≤ length xs → length (take n xs) ≡ n
length-take zero xs h = refl
length-take (suc n) [] h = absurd (omega arith)
length-take (suc n) (x ∷ xs) h = ap suc (length-take n xs (omega arith))

nonempty-drop : (n : ℕ) (xs : Bytes) → n < length xs → is_nil (drop n xs) ≡ false
nonempty-drop zero [] h = absurd (omega arith)
nonempty-drop zero (x ∷ xs) h = refl
nonempty-drop (suc n) [] h = absurd (omega arith)
nonempty-drop (suc n) (x ∷ xs) h = nonempty-drop n xs (omega arith)

-- What a read leaves of a chunk, before the rest.
abbrev pub left_over : Bytes → List Event → List Event
left_over d rest = if is_nil d then rest else chunk d ∷ rest

-- The bytes read are a beginning of the chunk, and `d` is left of it.
pub record IsPart (n : ℕ) (bytes : Bytes) (rest : List Event) (b : Bytes) (left : List Event)
    : Type 0 where
  pub d : Bytes
  pub some_bytes : 0 < length b
  pub no_more : length b ≤ n
  pub split : b ++ d ≡ bytes
  pub leaves : left ≡ left_over d rest

pub read_chunk-IsPart :
    (n : ℕ) (bytes : Bytes) (rest : List Event) (b : Bytes) (left : List Event)
    → 0 < n
    → read_chunk n bytes rest ≡ read_bytes b left
    → IsPart n bytes rest b left
unfolding read_chunk
read_chunk-IsPart n [] rest b left pos h = cc
read_chunk-IsPart n (x ∷ xs) rest b left pos h = elim (Bool-cases (leb (length (x ∷ xs)) n)) [
  | inl fits ↦
      let e : read_bytes (x ∷ xs) rest ≡ read_bytes b left = rw fits at h in
      let eb : b ≡ x ∷ xs = cc in
      rw eb record {
        d = [];
        some_bytes = omega arith;
        no_more = ground arith;
        split = append-nil (x ∷ xs);
        leaves = cc;
      }
  | inr over ↦
      let all_of : Bytes = x ∷ xs in
      let e : read_bytes (take n (x ∷ xs)) (chunk (drop n (x ∷ xs)) ∷ rest) ≡ read_bytes b left =
        rw over at h in
      let eb : b ≡ take n (x ∷ xs) = cc in
      let er : left ≡ chunk (drop n (x ∷ xs)) ∷ rest = cc in
      let longer : n < length (x ∷ xs) = ground arith in
      let len = length-take n (x ∷ xs) (omega arith) in
      rw eb record {
        d = drop n (x ∷ xs);
        some_bytes = omega arith;
        no_more = omega arith;
        split = take-append-drop n (x ∷ xs);
        leaves = rw (nonempty-drop n (x ∷ xs) longer) er;
      }
]
