-- ===== src/Files/Stream/Examples.antt =====
-- Tests and instances of the copy loops (stream.rs).
use anyflow.Prelude.{◌≡◌, refl, true, ok, err, some, List, [], ◌∷◌, map}
use anyflow.Files.Transfer.{integrity, cancelled_by_user}
use anyflow.Files.Stream.{
  Event, chunk, cancelled, Sink, Wire, written, Sent, receive_exactly, send_exactly,
}
use anyflow.Files.Stream.Receive
use anyflow.Files.Stream.Receive.{content, receive_exactly-Ends}
use anyflow.Files.Stream.Delivery.{TakesAll, result_of, receive_exactly-send_exactly}

-- The digest of a file is the file itself.
abbrev disk : Sink
disk = record {
  accepts = λ file bytes. true;
  part_of = λ file bytes. 0;
  flushes = λ file. true;
  sha256 = λ bytes. bytes;
}

abbrev socket : Wire
socket = record {
  write = λ chunks bytes. written;
  part_of = λ chunks bytes. 0;
  flushes = λ chunks. true;
}

disk-TakesAll : TakesAll disk
disk-TakesAll = record { takes = λ file bytes. refl; flushed = λ file. refl }

abbrev events : List Event
events = chunk (1 ∷ 2 ∷ []) ∷ chunk (3 ∷ []) ∷ cancelled ∷ []

abbrev sent : Sent
sent = record { chunks = (1 ∷ 2 ∷ []) ∷ (3 ∷ []) ∷ []; progress = 3; result = ok tt }

tests :
    (result_of (receive_exactly disk 3 events) ≡ some (ok (1 ∷ 2 ∷ 3 ∷ [])))
    × (result_of (receive_exactly disk 4 events) ≡ some (err cancelled_by_user))
    × (result_of (receive_exactly disk 2 events) ≡ some (err integrity))
unfolding receive_exactly
tests = (refl, refl, refl)

receive_exactly-Ends_example : Receive.Ends disk 4 (content events) (receive_exactly disk 4 events)
receive_exactly-Ends_example = receive_exactly-Ends disk 4 events

receive_exactly-send_exactly_example :
    result_of (receive_exactly disk 3 (map chunk ((1 ∷ []) ∷ (2 ∷ 3 ∷ []) ∷ [])))
    ≡ some (ok (1 ∷ 2 ∷ 3 ∷ []))
unfolding send_exactly
receive_exactly-send_exactly_example =
    receive_exactly-send_exactly disk disk-TakesAll 3 socket events sent
      ((1 ∷ []) ∷ (2 ∷ 3 ∷ []) ∷ []) refl refl refl refl
