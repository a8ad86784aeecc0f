-- ===== src/Files/Stream/Delivery.antt =====
-- A file from one end of a data stream to the other (stream.rs).
use mathlib.Core.List.{append-nil, append_assoc}
use anyflow.Prelude.{
  ℕ, zero, suc, ◌-◌, ◌≤◌, ◌<◌, ◌≡◌, ◌≢◌, refl, sym, ap, ◌∙◌, true, false, Option, none, some, List,
  [], ◌∷◌, ◌++◌, length, take, is_nil, all, map, leb, ◌==◌, ==_iff, if◌then◌else◌, Bytes, Result,
  ok, err, arith, Bool-cases, inl, inr, length-append,
}
use anyflow.Files.Transfer.{FailureReason, integrity}
use anyflow.Files.Stream.{
  want, Event, chunk, stopped, read_bytes, read_chunk, read, Run, ended, out_of_fuel, Sink, Wire,
  Sent, SendRun, trailing, finish, receive_loop, send_exactly, receive_exactly,
}
use anyflow.Files.Stream.Reads.{left_over, read_chunk-IsPart}
use anyflow.Files.Stream.Receive.{Reading-cases, want_bounds}
use anyflow.Files.Stream.Send.{local_content, joined, is_full, send_exactly-Ends}

-- The disk takes every write.
pub record TakesAll (s : Sink) : Type 0 where
  pub takes : (file bytes : Bytes) → s.accepts file bytes ≡ true
  pub flushed : (file : Bytes) → s.flushes file ≡ true

abbrev pub result_of : {A : Type 0} → Run A → Option (Result A FailureReason)
result_of (ended c) = some c.result
result_of out_of_fuel = none

never_stopped :
    (n : ℕ) (x : ℕ) (xs : Bytes) (rest : List Event) (reason : FailureReason)
    → read_chunk n (x ∷ xs) rest ≢ stopped reason
unfolding read_chunk
never_stopped n x xs rest reason h = elim (Bool-cases (leb (length (x ∷ xs)) n)) [
  | inl fits ↦ let e : read_bytes (x ∷ xs) rest ≡ stopped reason = rw fits at h in cc
  | inr over ↦ ground arith
]

-- The chunks that are left when `d` is left of the first.
abbrev left_chunks : Bytes → List Bytes → List Bytes
left_chunks d cs = if is_nil d then cs else d ∷ cs

left_chunks_lem :
    (d : Bytes) (cs : List Bytes)
    → all is_full cs ≡ true
    → (left_over d (map chunk cs) ≡ map chunk (left_chunks d cs))
      × (all is_full (left_chunks d cs) ≡ true)
      × (joined (left_chunks d cs) ≡ d ++ joined cs)
left_chunks_lem [] cs h = (refl, h, refl)
left_chunks_lem (x ∷ xs) cs h = (refl, h, refl)

ended-injective : (c d : Sent) → SendRun.ended c ≡ SendRun.ended d → c ≡ d
ended-injective c d e = cc

module _ (s : Sink) (takes_all : TakesAll s) (expected : ℕ) where
  -- The result for chunks that make up `bytes` in all.
  abbrev verdict : ℕ → Bytes → Bytes → Option (Result Bytes FailureReason)
  verdict remaining file bytes =
      some (if length bytes == remaining then ok (s.sha256 (file ++ bytes)) else err integrity)

  finish-chunks :
      (file : Bytes) (progress : ℕ) (cs : List Bytes)
      → all is_full cs ≡ true
      → result_of (finish s file progress (map chunk cs)) ≡ verdict 0 file (joined cs)
  unfolding finish trailing
  finish-chunks file progress [] h = rw (takes_all.flushed file, append-nil file) refl
  finish-chunks file progress ([] ∷ cs) h = cc
  finish-chunks file progress ((x ∷ xs) ∷ cs) h =
      let z : (length ((x ∷ xs) ++ joined cs) == 0) ≡ false = ground arith in
      rw (takes_all.flushed file, z) refl

  verdict-shift :
      (remaining : ℕ) (file b rest bytes : Bytes)
      → length b ≤ remaining
      → b ++ rest ≡ bytes
      → verdict (remaining - length b) (file ++ b) rest ≡ verdict remaining file bytes
  verdict-shift remaining file b rest bytes le e =
      let len = length-append b rest in
      let test : (length rest == (remaining - length b)) ≡ (length (b ++ rest) == remaining) =
        ground arith in
      rw (← e, test, append_assoc file b rest) refl

  loop-chunks :
      (fuel remaining : ℕ) (file : Bytes) (progress : ℕ) (cs : List Bytes)
      → remaining < fuel
      → all is_full cs ≡ true
      → result_of (receive_loop s fuel expected remaining file progress (map chunk cs))
        ≡ verdict remaining file (joined cs)
  unfolding receive_loop read
  loop-chunks zero remaining file progress cs enough h = absurd (omega arith)
  loop-chunks (suc fuel) remaining file progress [] enough h = elim (Bool-cases (remaining == 0)) [
    | inl done ↦ let z : remaining ≡ 0 = ground arith in rw z (finish-chunks file progress [] h)
    | inr more ↦ let z : (0 == remaining) ≡ false = ground arith in rw (more, z, receive_loop) refl
  ]
  loop-chunks (suc fuel) remaining file progress ([] ∷ r) enough h = cc
  loop-chunks (suc fuel) remaining file progress ((x ∷ xs) ∷ r) enough h =
      elim (Bool-cases (remaining == 0)) [
        | inl done ↦
            let z : remaining ≡ 0 = ground arith in
            rw z (finish-chunks file progress ((x ∷ xs) ∷ r) h)
        | inr more ↦ elim (Reading-cases (read_chunk (want remaining) (x ∷ xs) (map chunk r))) [
          | inl (reason, e) ↦ absurd (never_stopped (want remaining) x xs (map chunk r) reason e)
          | inr (b, left, e) ↦
              let (pos, le) = want_bounds remaining more in
              let p = read_chunk-IsPart (want remaining) (x ∷ xs) (map chunk r) b left pos e in
              let some_b : 0 < length b = p.some_bytes in
              let few : length b ≤ want remaining = p.no_more in
              let (l, f, j) = left_chunks_lem p.d r h in
              let same : b ++ joined (left_chunks p.d r) ≡ (x ∷ xs) ++ joined r =
                rw (j, ← append_assoc b p.d (joined r)) (ap (λ q. q ++ joined r) p.split) in
              rw (more, e, takes_all.takes file b, p.leaves, l, receive_loop)
                (loop-chunks fuel (remaining - length b) (file ++ b)
                    (expected - (remaining - length b)) (left_chunks p.d r) (omega arith) f
                  ∙ verdict-shift remaining file b (joined (left_chunks p.d r))
                      ((x ∷ xs) ++ joined r) (omega arith) same)
        ]
      ]

  -- To a disk that takes every write, chunks that hold something and make up the offered length are
  -- received, and the digest is that of their bytes, however they are cut; of any other length they
  -- are an integrity failure, whether they are too few or too many.
  pub receive_exactly-chunks :
      (cs : List Bytes)
      → all is_full cs ≡ true
      → result_of (receive_exactly s expected (map chunk cs))
        ≡ some (if length (joined cs) == expected then ok (s.sha256 (joined cs)) else err integrity)
  unfolding receive_exactly
  receive_exactly-chunks cs h = loop-chunks (suc expected) expected [] 0 cs (omega arith) h

  -- What a sending that succeeded has put on the wire, the network may cut anew. A receiver whose disk
  -- takes every write and is flushed gets the digest of the file's beginning of the offered length.
  pub receive_exactly-send_exactly :
      (w : Wire) (events : List Event) (c : Sent) (cs : List Bytes)
      → send_exactly w expected events ≡ SendRun.ended c
      → c.result ≡ ok tt
      → all is_full cs ≡ true
      → joined cs ≡ joined c.chunks
      → result_of (receive_exactly s expected (map chunk cs))
        ≡ some (ok (s.sha256 (take expected (local_content events))))
  receive_exactly-send_exactly w events c cs sent done full same =
      let (c', e, i) = send_exactly-Ends w expected events in
      let cc' : c' ≡ c = ended-injective c' c (sym e ∙ sent) in
      let len' : length (joined c'.chunks) ≡ expected = i.complete (rw cc' done) in
      let p : take (length (joined c'.chunks)) (local_content events) ≡ joined c'.chunks =
        i.is_prefix in
      let all_of : joined cs ≡ take expected (local_content events) =
        same
        ∙ ap (λ s'. joined s'.chunks) (sym cc')
        ∙ sym p
        ∙ ap (λ n. take n (local_content events)) len' in
      let len : (length (joined cs) == expected) ≡ true =
        (==_iff _ _).1 (ap length (same ∙ ap (λ s'. joined s'.chunks) (sym cc')) ∙ len') in
      rw (receive_exactly-chunks cs full, len, all_of) refl
