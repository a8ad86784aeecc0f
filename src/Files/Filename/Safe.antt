-- ===== src/Files/Filename/Safe.antt =====
-- What `sanitize` promises of the name that it returns (filename.rs).
use mathlib.Core.List.{append-nil, append_assoc}
use anyflow.Prelude.{
  ℕ, suc, ◌+◌, ◌-◌, ◌≤◌, ◌<◌, ◌≡◌, refl, ap, subst, Bool, true, false, ◌||◌, Option, none, some,
  List, [], ◌∷◌, ◌++◌, map, length, any, all, keep, is_nil, leb, if◌then◌else◌, arith, Bool-cases,
  inl, inr, Option-cases, ◌=?◌, =?_iff, bytes_key, all-append,
}
use anyflow.Files.Filename.{
  Text, is_dot_directory, len_utf8, byte_len, is_dot, is_kept, is_reserved, reserved_stems, stem_of,
  rfind_dot, last_component, trim_start, trim_end, trimmed, judge, sanitize, slice_to,
  to_ascii_lowercase, split_for_cut, truncate_preserving_extension, max_filename_bytes,
}
use anyflow.Files.Filename.Harmless.{IsHarmless, kept-harmless, all-any}
use anyflow.Files.Filename.Cut.{
  byte_len-append, byte_len-le, slice_to-le, slice_to-near, slice-floor,
}

-- A name that can be created in a directory and is what it looks like.
pub record IsSafe (s : Text) : Type 0 where
  pub kept : all is_kept s ≡ true
  pub unreserved : is_reserved (stem_of s) ≡ false
  pub nonempty : 0 < byte_len s
  pub fits : byte_len s ≤ max_filename_bytes

-- The reserved names are short.
all_short : all (λ r. leb (length r) 7) reserved_stems ≡ true
unfolding reserved_stems
all_short = refl

length-map : (f : ℕ → ℕ) (xs : Text) → length (map f xs) ≡ length xs
length-map f [] = refl
length-map f (x ∷ xs) = ap suc (length-map f xs)

any-short :
    (x : Text) (rs : List Text)
    → all (λ r. leb (length r) 7) rs ≡ true
    → any (λ r. r =? x) rs ≡ true
    → length x ≤ 7
any-short x [] s h = cc
any-short x (r ∷ rs) s h = elim (Bool-cases (r =? x)) [
  | inl same ↦ let e : length r ≡ length x = ap length ((=?_iff r x).0 same) in ground arith
  | inr other ↦ any-short x rs (ground arith) (rw other at h)
]

long-unreserved : (s : Text) → 28 < byte_len s → is_reserved s ≡ false
unfolding is_reserved
long-unreserved s h = elim (Bool-cases (is_reserved s)) [
  | inl r ↦ absurd (
      omega (
        arith,
        any-short _ reserved_stems all_short r,
        length-map to_ascii_lowercase s,
        byte_len-le s,
      ))
  | inr u ↦ u
]

stem_of-append :
    (a b : Text) → stem_of (a ++ b) ≡ (if any is_dot a then stem_of a else a ++ stem_of b)
unfolding stem_of
stem_of-append [] b = refl
stem_of-append (c ∷ cs) b = ground (arith, stem_of-append cs b)

-- What follows the cut is an extension, or nothing.
abbrev IsExtension : Text → Type 0
IsExtension e = (byte_len e ≤ 16) × (stem_of e ≡ [])

rfind_dot-parts : (s a b : Text) → rfind_dot s ≡ some (a, b) → (a ++ b ≡ s) × (stem_of b ≡ [])
unfolding rfind_dot stem_of
rfind_dot-parts [] a b h = cc
rfind_dot-parts (c ∷ cs) a b h = elim (Option-cases (rfind_dot cs)) [
  | inl e ↦ elim (Bool-cases (is_dot c)) [ inl d ↦ ground arith | inr d ↦ absurd (ground arith) ]
  | inr (p, e) ↦ ground (arith, rfind_dot-parts cs p.0 p.1)
]

split-parts :
    (s : Text) (o : Option (Text × Text))
    → ((a b : Text) → o ≡ some (a, b) → (a ++ b ≡ s) × (stem_of b ≡ []))
    → ((split_for_cut s o).0 ++ (split_for_cut s o).1 ≡ s) × IsExtension (split_for_cut s o).1
unfolding split_for_cut stem_of
split-parts s none h = ground (arith, append-nil s)
split-parts s (some (a, b)) h = ground (arith, h a b refl, append-nil s)

slice_to-prefix : (n : ℕ) (s : Text) → (rest : Text) × (slice_to n s ++ rest ≡ s)
unfolding slice_to
slice_to-prefix n [] = ([], refl)
slice_to-prefix n (c ∷ cs) = elim (Bool-cases (leb (len_utf8 c) n)) [
  | inl fits ↦ let (rest, e) = slice_to-prefix (n - len_utf8 c) cs in (rest, rw fits (ap (◌∷◌ c) e))
  | inr over ↦ (c ∷ cs, rw over refl)
]

-- A long part of a safe name, with its extension behind it, is no reserved name.
cut-unreserved :
    (p rest e : Text)
    → 28 < byte_len p
    → stem_of e ≡ []
    → is_reserved (stem_of (p ++ rest)) ≡ false
    → is_reserved (stem_of (p ++ e)) ≡ false
cut-unreserved p rest e long x h = elim (Bool-cases (any is_dot p)) [
  | inl d ↦ rw (stem_of-append p e, d) (rw (stem_of-append p rest, d) at h)
  | inr n ↦ rw (stem_of-append p e, n, x, append-nil p) (long-unreserved p long)
]

cut_lem :
    (st e : Text)
    → IsExtension e
    → 255 < byte_len (st ++ e)
    → all is_kept (st ++ e) ≡ true
    → is_reserved (stem_of (st ++ e)) ≡ false
    → IsSafe (slice_to (255 - byte_len e) st ++ e)
cut_lem st e (small, x) long kept free =
    let n : ℕ = 255 - byte_len e in
    let p : Text = slice_to n st in
    let (rest, pr) = slice_to-prefix n st in
    let sum = byte_len-append st e in
    let near : n ≤ byte_len p + 3 = slice_to-near n st (omega arith) in
    let parts = all-append is_kept st e in
    let parts' = all-append is_kept p rest in
    let kept_st : all is_kept (p ++ rest) ≡ true = rw pr (ground arith) in
    record {
      kept = rw (all-append is_kept p e) (ground arith);
      unreserved =
          cut-unreserved p (rest ++ e) e (omega arith) x (rw (← append_assoc p rest e, pr) free);
      nonempty = omega (arith, byte_len-append p e);
      fits = omega (arith, byte_len-append p e, slice_to-le n st);
    }

truncate-IsSafe :
    (t : Text)
    → 0 < byte_len t
    → all is_kept t ≡ true
    → is_reserved (stem_of t) ≡ false
    → IsSafe (truncate_preserving_extension t)
unfolding truncate_preserving_extension
truncate-IsSafe t some_bytes kept free = elim (Bool-cases (leb (byte_len t) 255)) [
  | inl short ↦
      rw short record { kept = kept; unreserved = free; nonempty = some_bytes; fits = ground arith }
  | inr long ↦
      let (whole, ext) = split-parts t (rfind_dot t) (λ a b. rfind_dot-parts t a b) in
      let st : Text = (split_for_cut t (rfind_dot t)).0 in
      let e : Text = (split_for_cut t (rfind_dot t)).1 in
      rw (long, (slice-floor st (255 - byte_len e)).0)
        (cut_lem st e ext (rw whole (ground arith)) (rw whole kept) (rw whole free))
]

all-keep : (cs : Text) → all is_kept (keep is_kept cs) ≡ true
all-keep [] = refl
all-keep (c ∷ cs) = ground (arith, all-keep cs)

all-trim_start : (cs : Text) → all is_kept cs ≡ true → all is_kept (trim_start cs) ≡ true
unfolding trim_start
all-trim_start [] h = refl
all-trim_start (c ∷ cs) h = ground (arith, all-trim_start cs)

all-trim_end : (cs : Text) → all is_kept cs ≡ true → all is_kept (trim_end cs) ≡ true
unfolding trim_end
all-trim_end [] h = refl
all-trim_end (c ∷ cs) h = ground (arith, all-trim_end cs)

all-trimmed : (raw : Text) → all is_kept (trimmed raw) ≡ true
unfolding trimmed
all-trimmed raw =
    all-trim_end (trim_start (keep is_kept (last_component raw)))
      (all-trim_start (keep is_kept (last_component raw)) (all-keep (last_component raw)))

nonempty-byte_len : (t : Text) → is_nil t ≡ false → 0 < byte_len t
nonempty-byte_len [] h = cc
nonempty-byte_len (c ∷ cs) h = ground arith

or-false : (a b : Bool) → (a || b) ≡ false → a ≡ false
or-false a b h = ground arith

chosen : (capped s : Text) → (if is_nil capped then none else some capped) ≡ some s → capped ≡ s
chosen [] s h = cc
chosen (c ∷ cs) s h = cc

judge-IsSafe : (t s : Text) → all is_kept t ≡ true → judge t ≡ some s → IsSafe s
unfolding judge
judge-IsSafe t s kept h = elim (Bool-cases (is_nil t || is_dot_directory t)) [
  | inl refused ↦ let n : none ≡ some s = rw refused at h in absurd (cc)
  | inr named ↦ elim (Bool-cases (is_reserved (stem_of t))) [
    | inl reserved ↦ let n : none ≡ some s = rw (named, reserved) at h in absurd (cc)
    | inr free ↦
        let same = chosen (truncate_preserving_extension t) s (rw (named, free) at h) in
        subst IsSafe same
          (truncate-IsSafe t (nonempty-byte_len t (or-false (is_nil t) _ named)) kept free)
  ]
]

-- A name that `sanitize` returns holds only characters that are kept, among which is no separator, no
-- colon, no control character and no mark that turns the direction of text; it is not empty, is at
-- most 255 bytes long, and does not have the stem of a device, also where it has been cut.
pub sanitize-IsSafe : (raw s : Text) → sanitize raw ≡ some s → IsSafe s × IsHarmless s
unfolding sanitize
sanitize-IsSafe raw s h =
    let safe = judge-IsSafe (trimmed raw) s (all-trimmed raw) h in
    (safe, record { harmless = λ c m. kept-harmless c (all-any c s safe.kept m) })
