-- ===== src/Files/Stream.antt =====
-- desktop/capabilities/files/src/stream.rs: the two copy loops of a data stream. A reader is the list
-- of what its reads meet, in turn; what a write meets may depend on all that was written before.
pub mod Reads
pub mod Receive
pub mod Send
pub mod Delivery
pub mod Examples
use anyflow.Prelude.{
  ℕ, zero, suc, ◌+◌, ◌-◌, ◌*◌, Bool, true, false, not, List, [], ◌∷◌, ◌++◌, length, take, drop,
  is_nil, leb, ltb, ◌==◌, if◌then◌else◌, Bytes, Result, ok, err,
}
use anyflow.Files.Transfer.{
  FailureReason, cancelled_by_user, integrity, transport, storage, timed_out,
}

abbrev pub copy_buffer_bytes : ℕ
copy_buffer_bytes = 64 * 1024

-- `remaining.min(buf.len())`
abbrev pub want : ℕ → ℕ
want remaining = if leb remaining copy_buffer_bytes then remaining else copy_buffer_bytes

-- What a reader meets: bytes that have arrived, the user's cancellation, an error of the socket or
-- the file, or a silence past the idle timeout. After the last one is the end of the file.
pub data Event : Type 0 where
  chunk : Bytes → Event
  cancelled broken silence : Event

pub data Reading : Type 0 where
  stopped : FailureReason → Reading
  read_bytes : Bytes → List Event → Reading

-- Up to `n` bytes; what does not fit stays for the next read. A read of no bytes is the end.
pub read_chunk : ℕ → Bytes → List Event → Reading
read_chunk n bytes rest =
    if is_nil bytes
    then stopped integrity
    else if leb (length bytes) n
    then read_bytes bytes rest
    else read_bytes (take n bytes) (chunk (drop n bytes) ∷ rest)

pub read : ℕ → List Event → Reading
unfolding read_chunk
read n [] = stopped integrity
read n (chunk bytes ∷ rest) = read_chunk n bytes rest
read n (cancelled ∷ rest) = stopped cancelled_by_user
read n (broken ∷ rest) = stopped transport
read n (silence ∷ rest) = stopped timed_out

-- How the copy ended: the file as it was written, the progress that was shown, and the result.
pub record Copied (A : Type 0) : Type 0 where
  pub file : Bytes
  pub progress : ℕ
  pub result : Result A FailureReason

pub data Run (A : Type 0) : Type 0 where
  ended : Copied A → Run A
  out_of_fuel : Run A

abbrev pub fails : {A : Type 0} → Bytes → ℕ → FailureReason → Run A
fails file progress reason = ended record { file = file; progress = progress; result = err reason }

-- The writer's `write_all` of the next bytes after those written, how many of them it has taken where
-- that fails, its `flush`, and the `sha2` crate.
pub record Sink : Type 0 where
  pub accepts : Bytes → Bytes → Bool
  pub part_of : Bytes → Bytes → ℕ
  pub flushes : Bytes → Bool
  pub sha256 : Bytes → Bytes

-- The read of one more byte: a cancellation is not looked at any more.
pub trailing : List Event → Bool
trailing [] = false
trailing (chunk bytes ∷ rest) = not (is_nil bytes)
trailing (cancelled ∷ rest) = trailing rest
trailing (broken ∷ rest) = false
trailing (silence ∷ rest) = false

module _ (s : Sink) where
  pub finish : Bytes → ℕ → List Event → Run Bytes
  unfolding trailing
  finish file progress rest =
      if not (s.flushes file)
      then fails file progress storage
      else if trailing rest
      then fails file progress integrity
      else ended record { file = file; progress = progress; result = ok (s.sha256 file) }

  pub receive_loop : ℕ → ℕ → ℕ → Bytes → ℕ → List Event → Run Bytes
  unfolding read finish
  receive_loop zero expected remaining file progress events = out_of_fuel
  receive_loop (suc fuel) expected remaining file progress events = elim (remaining == 0) [
    | true ↦ finish file progress events
    | false ↦ elim (read (want remaining) events) [
      | stopped reason ↦ fails file progress reason
      | read_bytes bytes rest ↦ elim (s.accepts file bytes) [
        | false ↦ fails (file ++ take (s.part_of file bytes) bytes) progress storage
        | true ↦
            receive_loop fuel expected (remaining - length bytes) (file ++ bytes)
              (expected - (remaining - length bytes)) rest
      ]
    ]
  ]

  -- Each round takes a byte at least, so one round more than there are bytes is enough.
  pub receive_exactly : ℕ → List Event → Run Bytes
  unfolding receive_loop
  receive_exactly expected events = receive_loop (suc expected) expected expected [] 0 events

-- What a write to the socket meets.
pub data Written : Type 0 where
  written write_cancelled write_broken write_timed_out : Written

-- The socket: what writing the next bytes meets after those that were sent, how many of them it has
-- taken where that fails, and its `flush`.
pub record Wire : Type 0 where
  pub write : List Bytes → Bytes → Written
  pub part_of : List Bytes → Bytes → ℕ
  pub flushes : List Bytes → Bool

-- The chunks that went out, the progress that was shown, and the result.
pub record Sent : Type 0 where
  pub chunks : List Bytes
  pub progress : ℕ
  pub result : Result (Unit {0}) FailureReason

pub data SendRun : Type 0 where
  ended : Sent → SendRun
  out_of_fuel : SendRun

-- What has gone out once a write has failed.
abbrev pub with_part : List Bytes → Bytes → List Bytes
with_part chunks [] = chunks
with_part chunks (x ∷ xs) = chunks ++ (x ∷ xs) ∷ []

abbrev pub gives_up : List Bytes → ℕ → FailureReason → SendRun
gives_up chunks progress reason =
    SendRun.ended record { chunks = chunks; progress = progress; result = err reason }

-- The local file: no cancellation and no timeout is looked at while it is read.
pub read_local : ℕ → List Event → Reading
unfolding read_chunk
read_local n [] = stopped integrity
read_local n (chunk bytes ∷ rest) = read_chunk n bytes rest
read_local n (cancelled ∷ rest) = read_local n rest
read_local n (broken ∷ rest) = stopped storage
read_local n (silence ∷ rest) = read_local n rest

module _ (w : Wire) where
  pub send_finish : List Bytes → ℕ → SendRun
  send_finish chunks progress =
      if not (w.flushes chunks)
      then gives_up chunks progress transport
      else SendRun.ended record { chunks = chunks; progress = progress; result = ok tt }

  pub send_loop : ℕ → ℕ → ℕ → List Bytes → ℕ → List Event → SendRun
  unfolding read_local send_finish
  send_loop zero expected remaining chunks progress events = SendRun.out_of_fuel
  send_loop (suc fuel) expected remaining chunks progress events = elim (remaining == 0) [
    | true ↦ send_finish chunks progress
    | false ↦ elim (read_local (want remaining) events) [
      | stopped reason ↦ gives_up chunks progress reason
      | read_bytes bytes rest ↦ elim (w.write chunks bytes) [
        | written ↦
            send_loop fuel expected (remaining - length bytes) (chunks ++ bytes ∷ [])
              (expected - (remaining - length bytes)) rest
        | write_cancelled ↦
            gives_up (with_part chunks (take (w.part_of chunks bytes) bytes)) progress
              cancelled_by_user
        | write_broken ↦
            gives_up (with_part chunks (take (w.part_of chunks bytes) bytes)) progress transport
        | write_timed_out ↦
            gives_up (with_part chunks (take (w.part_of chunks bytes) bytes)) progress timed_out
      ]
    ]
  ]

  pub send_exactly : ℕ → List Event → SendRun
  unfolding send_loop
  send_exactly expected events = send_loop (suc expected) expected expected [] 0 events
