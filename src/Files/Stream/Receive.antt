-- ===== src/Files/Stream/Receive.antt =====
-- What the receiving loop writes and returns, whatever the peer does (stream.rs, `receive_exactly`).
use mathlib.Core.List.{append_assoc}
use anyflow.Prelude.{
  ℕ, zero, suc, ◌+◌, ◌-◌, ◌≤◌, ◌<◌, ◌≡◌, ◌≢◌, refl, ap, sym, ◌∙◌, drop, false, List, [], ◌∷◌, ◌++◌,
  length, take, is_nil, ◌==◌, if◌then◌else◌, Bytes, ok, err, arith, Bool-cases, inl, inr, ◌⊎◌,
  length-append,
}
use anyflow.Files.Transfer.{FailureReason, storage, integrity}
use anyflow.Files.Stream.Reads.{left_over, read_chunk-IsPart}
use anyflow.Files.Stream.{
  want, Event, chunk, cancelled, broken, silence, Reading, stopped, read_bytes, read_chunk, read,
  Copied, Run, ended, fails, Sink, trailing, finish, receive_loop, receive_exactly,
}

-- The bytes that arrive before anything else does.
abbrev pub content : List Event → Bytes
content [] = []
content (chunk bytes ∷ rest) = bytes ++ (if is_nil bytes then [] else content rest)
content (cancelled ∷ rest) = []
content (broken ∷ rest) = []
content (silence ∷ rest) = []

content-left_over : (d : Bytes) (rest : List Event) → content (left_over d rest) ≡ d ++ content rest
content-left_over [] rest = refl
content-left_over (x ∷ xs) rest = refl

empty-no_read :
    (n : ℕ) (es : List Event) (b : Bytes) (rest : List Event)
    → read_chunk n [] es ≢ read_bytes b rest
unfolding read_chunk
empty-no_read n es b rest h = cc

-- `b` came first of `events`, and `rest` is left.
record IsRead (n : ℕ) (events : List Event) (b : Bytes) (rest : List Event) : Type 0 where
  some_bytes : 0 < length b
  no_more : length b ≤ n
  split : b ++ content rest ≡ content events

read-IsRead :
    (n : ℕ) (events : List Event) (b : Bytes) (rest : List Event)
    → 0 < n
    → read n events ≡ read_bytes b rest
    → IsRead n events b rest
unfolding read
read-IsRead n [] b rest pos h = cc
read-IsRead n (cancelled ∷ es) b rest pos h = cc
read-IsRead n (broken ∷ es) b rest pos h = cc
read-IsRead n (silence ∷ es) b rest pos h = cc
read-IsRead n (chunk [] ∷ es) b rest pos h = absurd (empty-no_read n es b rest h)
read-IsRead n (chunk (x ∷ xs) ∷ es) b rest pos h =
    let p = read_chunk-IsPart n (x ∷ xs) es b rest pos h in
    record {
      some_bytes = p.some_bytes;
      no_more = p.no_more;
      split =
          rw (p.leaves, content-left_over p.d es, ← append_assoc b p.d (content es))
            (ap (λ l. l ++ content es) p.split);
    }

pub take_self : (xs ys : Bytes) → take (length xs) (xs ++ ys) ≡ xs
take_self [] ys = refl
take_self (x ∷ xs) ys = ap (◌∷◌ x) (take_self xs ys)

-- The file, which is what the writer has taken, is the beginning of what arrived, no longer than was
-- offered; the progress tells its length, or less where the disk has failed; a copy that succeeds has the whole length and returns the digest of the file.
pub record IsFaithful (s : Sink) (expected : ℕ) (arrived : Bytes) (c : Copied Bytes) : Type 0 where
  pub is_prefix : take (length c.file) arrived ≡ c.file
  pub bounded : length c.file ≤ expected
  pub shown : c.progress ≤ length c.file
  pub exact : c.result ≢ err storage → c.progress ≡ length c.file
  pub complete : (h : Bytes) → c.result ≡ ok h → (length c.file ≡ expected) × (h ≡ s.sha256 c.file)

abbrev pub Ends : Sink → ℕ → Bytes → Run Bytes → Type 0
Ends s expected arrived r = (c : Copied Bytes) × (r ≡ ended c) × IsFaithful s expected arrived c

pub Reading-cases :
    (r : Reading)
    → ((reason : FailureReason) × (r ≡ stopped reason))
      ⊎ ((b : Bytes) × (rest : List Event) × (r ≡ read_bytes b rest))
Reading-cases (stopped reason) = inl (reason, refl)
Reading-cases (read_bytes b rest) = inr (b, rest, refl)

pub want_bounds : (n : ℕ) → (n == 0) ≡ false → (0 < want n) × (want n ≤ n)
want_bounds n h = ground arith

take-drop : (n : ℕ) (xs : Bytes) → take n xs ++ drop n xs ≡ xs
take-drop zero xs = refl
take-drop (suc n) [] = refl
take-drop (suc n) (x ∷ xs) = ap (◌∷◌ x) (take-drop n xs)

pub parted :
    (file b rest : Bytes) (n : ℕ) → (file ++ take n b) ++ (drop n b ++ rest) ≡ file ++ (b ++ rest)
parted file b rest n =
    append_assoc file (take n b) (drop n b ++ rest)
    ∙ ap (λ l. file ++ l)
        (sym (append_assoc (take n b) (drop n b) rest) ∙ ap (λ l. l ++ rest) (take-drop n b))

pub length-take_le : (n : ℕ) (xs : Bytes) → length (take n xs) ≤ length xs
length-take_le zero xs = omega arith
length-take_le (suc n) [] = omega arith
length-take_le (suc n) (x ∷ xs) = omega (arith, length-take_le n xs)

module _ (s : Sink) (expected : ℕ) where
  fails-Ends :
      (file rest : Bytes) (progress : ℕ) (reason : FailureReason)
      → length file ≤ expected
      → progress ≤ length file
      → (reason ≢ storage → progress ≡ length file)
      → Ends s expected (file ++ rest) (fails file progress reason)
  fails-Ends file rest progress reason small p exact = (
    record { file = file; progress = progress; result = err reason },
    refl,
    record {
      is_prefix = take_self file rest;
      bounded = small;
      shown = p;
      exact = λ other. exact (λ same. other (ap err same));
      complete = λ h e. cc;
    },
  )

  ok-Ends :
      (file rest : Bytes) (progress : ℕ)
      → length file ≡ expected
      → progress ≡ length file
      → Ends s expected
          (file ++ rest)
          (ended record { file = file; progress = progress; result = ok (s.sha256 file) })
  ok-Ends file rest progress full p = (
    record { file = file; progress = progress; result = ok (s.sha256 file) },
    refl,
    record {
      is_prefix = take_self file rest;
      bounded = omega arith;
      shown = omega arith;
      exact = λ other. p;
      complete = λ h e. (full, cc);
    },
  )

  finish-Ends :
      (file : Bytes) (progress : ℕ) (events : List Event)
      → length file ≡ expected
      → progress ≡ length file
      → Ends s expected (file ++ content events) (finish s file progress events)
  unfolding finish
  finish-Ends file progress events full p = elim (Bool-cases (s.flushes file)) [
    | inr failed ↦
        rw failed (
          fails-Ends file (content events) progress storage (omega arith) (omega arith)
            (λ other. p))
    | inl yes_it ↦ elim (Bool-cases (trailing events)) [
      | inl more ↦
          rw (yes_it, more)
            (fails-Ends file (content events) progress integrity (omega arith) (omega arith)
              (λ other. p))
      | inr done ↦ rw (yes_it, done) (ok-Ends file (content events) progress full p)
    ]
  ]

  loop-Ends :
      (fuel remaining : ℕ) (file : Bytes) (progress : ℕ) (events : List Event)
      → remaining < fuel
      → length file + remaining ≡ expected
      → progress ≡ length file
      → Ends s expected
          (file ++ content events)
          (receive_loop s fuel expected remaining file progress events)
  unfolding receive_loop
  loop-Ends zero remaining file progress events enough sum p = absurd (omega arith)
  loop-Ends (suc fuel) remaining file progress events enough sum p =
      elim (Bool-cases (remaining == 0)) [
        | inl done ↦ rw (done, receive_loop) (finish-Ends file progress events (ground arith) p)
        | inr more ↦ elim (Reading-cases (read (want remaining) events)) [
          | inl (reason, e) ↦
              rw (more, e, receive_loop)
                (fails-Ends file (content events) progress reason (omega arith) (omega arith)
                  (λ other. p))
          | inr (b, rest, e) ↦ elim (Bool-cases (s.accepts file b)) [
            | inr full ↦
                let (pos, le) = want_bounds remaining more in
                let i = read-IsRead (want remaining) events b rest pos e in
                let few : length b ≤ want remaining = i.no_more in
                let n = s.part_of file b in
                rw (more, e, full, receive_loop)
                  (rw (← i.split, ← parted file b (content rest) n)
                    (fails-Ends (file ++ take n b) (drop n b ++ content rest) progress storage
                      (omega (arith, length-append file (take n b), length-take_le n b))
                      (omega (arith, length-append file (take n b)))
                      (λ other. absurd (other refl))))
            | inl taken ↦
                let (pos, le) = want_bounds remaining more in
                let i = read-IsRead (want remaining) events b rest pos e in
                let some_b : 0 < length b = i.some_bytes in
                let few : length b ≤ want remaining = i.no_more in
                let len = length-append file b in
                rw (more, e, taken, receive_loop)
                  (rw (← i.split, ← append_assoc file b (content rest))
                    (loop-Ends fuel (remaining - length b) (file ++ b)
                      (expected - (remaining - length b)) rest (omega arith) (omega arith)
                      (omega arith)))
          ]
        ]
      ]

  -- Whatever the peer sends and the disk does, the loop ends without running out of rounds. What
  -- the file's writer has taken is then the beginning of what arrived, never longer than was offered;
  -- the progress tells its length, or no more than that where the disk has failed; a digest is returned only for a file of the whole length, and is that file's.
  pub receive_exactly-Ends :
      (events : List Event) → Ends s expected (content events) (receive_exactly s expected events)
  unfolding receive_exactly
  receive_exactly-Ends events =
      loop-Ends (suc expected) expected [] 0 events (omega arith) (omega arith) refl
