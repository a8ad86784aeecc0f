-- ===== src/Session/Framing/Examples.antt =====
-- Two envelopes on a stream, encoded by their ids alone.
use anyflow.Prelude.{◌≡◌, refl, none, some, List, [], ◌∷◌, ◌++◌, length, Bytes, ok, arith}
use anyflow.Session.Wire.{Envelope}
use anyflow.Session.Framing.{Codec}
use anyflow.Session.Framing.Stream.{AllFit, nothing, first, write_all, read_all, read_all-write_all}

abbrev envelope : Bytes → Envelope
envelope id = record {
  protocol_version = 1;
  message_id = id;
  sequence = 1;
  timestamp_unix_ms = 0;
  correlation_id = [];
  body = none;
}

abbrev codec : Codec
codec = record { encode_to_vec = λ e. e.message_id; decode = λ bytes. some (envelope bytes) }

abbrev two : List Envelope
two = envelope (1 ∷ 2 ∷ []) ∷ envelope (3 ∷ []) ∷ []

two-AllFit : AllFit codec two
two-AllFit =
    first (record { some_body = omega arith; short = omega arith; decodes = refl })
      (first (record { some_body = omega arith; short = omega arith; decodes = refl }) nothing)

read_all-write_all_example :
    (wire : Bytes) × (write_all codec two ≡ ok wire)
    × (read_all codec (length two) (wire ++ 0 ∷ []) ≡ ok (two, 0 ∷ []))
read_all-write_all_example = read_all-write_all codec two (0 ∷ []) two-AllFit
