-- ===== src/Files/Stream/Send.antt =====
-- What the sending loop puts on the wire, and what the receiving loop makes of it (stream.rs).
use mathlib.Core.List.{append-nil, append_assoc}
use anyflow.Prelude.{
  ℕ, zero, suc, ◌+◌, ◌-◌, ◌≤◌, ◌<◌, ◌≡◌, ◌≢◌, refl, sym, ap, ◌∙◌, Bool, true, not, List, [], ◌∷◌,
  ◌++◌, length, take, drop, is_nil, all, ◌==◌, if◌then◌else◌, Bytes, ok, err, arith, Bool-cases,
  inl, inr, ◌⊎◌, length-append, all-append,
}
use anyflow.Files.Transfer.{FailureReason, transport, timed_out, cancelled_by_user}
use anyflow.Files.Stream.{
  want, Event, chunk, cancelled, broken, silence, read_bytes, read_chunk, read_local, Written,
  written, write_cancelled, write_broken, write_timed_out, Wire, Sent, SendRun, with_part, gives_up,
  send_finish, send_loop, send_exactly,
}
use anyflow.Files.Stream.Reads.{left_over, read_chunk-IsPart}
use anyflow.Files.Stream.Receive.{Reading-cases, want_bounds, take_self, parted, length-take_le}

-- The bytes of the local file, up to an error of the disk.
abbrev pub local_content : List Event → Bytes
local_content [] = []
local_content (chunk bytes ∷ rest) = bytes ++ (if is_nil bytes then [] else local_content rest)
local_content (cancelled ∷ rest) = local_content rest
local_content (broken ∷ rest) = []
local_content (silence ∷ rest) = local_content rest

abbrev pub joined : List Bytes → Bytes
joined [] = []
joined (b ∷ bs) = b ++ joined bs

abbrev pub is_full : Bytes → Bool
is_full b = not (is_nil b)

local-left_over :
    (d : Bytes) (rest : List Event) → local_content (left_over d rest) ≡ d ++ local_content rest
local-left_over [] rest = refl
local-left_over (x ∷ xs) rest = refl

record IsRead (n : ℕ) (events : List Event) (b : Bytes) (rest : List Event) : Type 0 where
  some_bytes : 0 < length b
  no_more : length b ≤ n
  split : b ++ local_content rest ≡ local_content events

empty-no_read :
    (n : ℕ) (es : List Event) (b : Bytes) (rest : List Event)
    → read_chunk n [] es ≢ read_bytes b rest
unfolding read_chunk
empty-no_read n es b rest h = cc

read_local-IsRead :
    (n : ℕ) (events : List Event) (b : Bytes) (rest : List Event)
    → 0 < n
    → read_local n events ≡ read_bytes b rest
    → IsRead n events b rest
unfolding read_local
read_local-IsRead n [] b rest pos h = cc
read_local-IsRead n (cancelled ∷ es) b rest pos h =
    let i = read_local-IsRead n es b rest pos h in
    record { some_bytes = i.some_bytes; no_more = i.no_more; split = i.split }
read_local-IsRead n (broken ∷ es) b rest pos h = cc
read_local-IsRead n (silence ∷ es) b rest pos h =
    let i = read_local-IsRead n es b rest pos h in
    record { some_bytes = i.some_bytes; no_more = i.no_more; split = i.split }
read_local-IsRead n (chunk [] ∷ es) b rest pos h = absurd (empty-no_read n es b rest h)
read_local-IsRead n (chunk (x ∷ xs) ∷ es) b rest pos h =
    let p = read_chunk-IsPart n (x ∷ xs) es b rest pos h in
    record {
      some_bytes = p.some_bytes;
      no_more = p.no_more;
      split =
          rw (p.leaves, local-left_over p.d es, ← append_assoc b p.d (local_content es))
            (ap (λ l. l ++ local_content es) p.split);
    }

joined-append : (bs : List Bytes) (b : Bytes) → joined (bs ++ b ∷ []) ≡ joined bs ++ b
joined-append [] b = append-nil b
joined-append (c ∷ cs) b = rw (joined-append cs b, append_assoc c (joined cs) b) refl

joined-with_part :
    (chunks : List Bytes) (p : Bytes) → joined (with_part chunks p) ≡ joined chunks ++ p
joined-with_part chunks [] = sym (append-nil (joined chunks))
joined-with_part chunks (x ∷ xs) = joined-append chunks (x ∷ xs)

full-with_part :
    (chunks : List Bytes) (p : Bytes)
    → all is_full chunks ≡ true
    → all is_full (with_part chunks p) ≡ true
full-with_part chunks [] full = full
full-with_part chunks (x ∷ xs) full = rw (all-append is_full chunks ((x ∷ xs) ∷ []), full) refl

full-length : (b : Bytes) → 0 < length b → is_full b ≡ true
full-length [] h = absurd (omega arith)
full-length (x ∷ xs) h = refl

-- What went out is the beginning of the file, in chunks that hold something; it is no longer than
-- was offered, and a sending that succeeds has the whole length.
pub record IsSent (expected : ℕ) (file : Bytes) (c : Sent) : Type 0 where
  pub is_prefix : take (length (joined c.chunks)) file ≡ joined c.chunks
  pub bounded : length (joined c.chunks) ≤ expected
  pub full : all is_full c.chunks ≡ true
  pub complete : c.result ≡ ok tt → length (joined c.chunks) ≡ expected

abbrev pub Ends : ℕ → Bytes → SendRun → Type 0
Ends expected file r = (c : Sent) × (r ≡ SendRun.ended c) × IsSent expected file c

Written-cases :
    (r : Written)
    → (r ≡ written) ⊎ ((r ≡ write_cancelled) ⊎ ((r ≡ write_broken) ⊎ (r ≡ write_timed_out)))
Written-cases written = inl refl
Written-cases write_cancelled = inr (inl refl)
Written-cases write_broken = inr (inr (inl refl))
Written-cases write_timed_out = inr (inr (inr refl))

module _ (w : Wire) (expected : ℕ) where
  gives_up-Ends :
      (chunks : List Bytes) (rest : Bytes) (progress : ℕ) (reason : FailureReason)
      → length (joined chunks) ≤ expected
      → all is_full chunks ≡ true
      → Ends expected (joined chunks ++ rest) (gives_up chunks progress reason)
  gives_up-Ends chunks rest progress reason small full = (
    record { chunks = chunks; progress = progress; result = err reason },
    refl,
    record {
      is_prefix = take_self (joined chunks) rest;
      bounded = small;
      full = full;
      complete = λ e. cc;
    },
  )

  broken-Ends :
      (chunks : List Bytes) (b rest : Bytes) (n progress : ℕ) (reason : FailureReason)
      → length (joined chunks) + length b ≤ expected
      → all is_full chunks ≡ true
      → Ends expected
          (joined chunks ++ (b ++ rest))
          (gives_up (with_part chunks (take n b)) progress reason)
  broken-Ends chunks b rest n progress reason small full =
      let part = take n b in
      let j = joined-with_part chunks part in
      let len : length (joined (with_part chunks part)) ≡ length (joined chunks) + length part =
        ap length j ∙ length-append (joined chunks) part in
      rw (← parted (joined chunks) b rest n, ← j)
        (gives_up-Ends (with_part chunks part) (drop n b ++ rest) progress reason
          (omega (arith, len, length-take_le n b)) (full-with_part chunks part full))

  finish-Ends :
      (chunks : List Bytes) (rest : Bytes) (progress : ℕ)
      → length (joined chunks) ≡ expected
      → all is_full chunks ≡ true
      → Ends expected (joined chunks ++ rest) (send_finish w chunks progress)
  unfolding send_finish
  finish-Ends chunks rest progress len full = elim (Bool-cases (w.flushes chunks)) [
    | inr failed ↦ rw failed (gives_up-Ends chunks rest progress transport (omega arith) full)
    | inl flushed ↦ rw flushed (
      record { chunks = chunks; progress = progress; result = ok tt },
      refl,
      record {
        is_prefix = take_self (joined chunks) rest;
        bounded = omega arith;
        full = full;
        complete = λ e. len;
      },
    )
  ]

  loop-Ends :
      (fuel remaining : ℕ) (chunks : List Bytes) (progress : ℕ) (events : List Event)
      → remaining < fuel
      → length (joined chunks) + remaining ≡ expected
      → all is_full chunks ≡ true
      → Ends expected
          (joined chunks ++ local_content events)
          (send_loop w fuel expected remaining chunks progress events)
  unfolding send_loop
  loop-Ends zero remaining chunks progress events enough sum full = absurd (omega arith)
  loop-Ends (suc fuel) remaining chunks progress events enough sum full =
      elim (Bool-cases (remaining == 0)) [
        | inl done ↦
            rw (done, send_loop)
              (finish-Ends chunks (local_content events) progress (ground arith) full)
        | inr more ↦ elim (Reading-cases (read_local (want remaining) events)) [
          | inl (reason, e) ↦
              rw (more, e, send_loop)
                (gives_up-Ends chunks (local_content events) progress reason (omega arith) full)
          | inr (b, rest, e) ↦
              let (pos, le) = want_bounds remaining more in
              let i = read_local-IsRead (want remaining) events b rest pos e in
              let few : length b ≤ want remaining = i.no_more in
              let n = w.part_of chunks b in
              let breaks = broken-Ends chunks b (local_content rest) n progress in
              elim (Written-cases (w.write chunks b)) [
                | inr (inl x) ↦
                    rw (more, e, x, send_loop, ← i.split)
                      (breaks cancelled_by_user (omega arith) full)
                | inr (inr (inl x)) ↦
                    rw (more, e, x, send_loop, ← i.split) (breaks transport (omega arith) full)
                | inr (inr (inr x)) ↦
                    rw (more, e, x, send_loop, ← i.split) (breaks timed_out (omega arith) full)
                | inl x ↦
                    let some_b : 0 < length b = i.some_bytes in
                    let j = joined-append chunks b in
                    let len = length-append (joined chunks) b in
                    let len' : length (joined (chunks ++ b ∷ []))
                        ≡ length (joined chunks) + length b =
                      rw j len in
                    let full' : all is_full (chunks ++ b ∷ []) ≡ true =
                      rw (all-append is_full chunks (b ∷ []), full, full-length b some_b) refl in
                    let same : joined (chunks ++ b ∷ []) ++ local_content rest
                        ≡ joined chunks ++ local_content events =
                      rw (j, append_assoc (joined chunks) b (local_content rest), i.split) refl in
                    rw (more, e, x, send_loop)
                      (rw (← same) (
                        loop-Ends fuel (remaining - length b) (chunks ++ b ∷ [])
                          (expected - (remaining - length b)) rest (omega arith) (omega arith)
                          full'))
              ]
        ]
      ]

  -- Whatever the file, the user and the socket do, the sending loop ends without running out of
  -- rounds. What went out is then the beginning of the file, in chunks that hold something, no longer
  -- than was offered, and of the whole length if the sending succeeded.
  pub send_exactly-Ends :
      (events : List Event) → Ends expected (local_content events) (send_exactly w expected events)
  unfolding send_exactly
  send_exactly-Ends events =
      loop-Ends (suc expected) expected [] 0 events (omega arith) (omega arith) refl
