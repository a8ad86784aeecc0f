-- ===== src/Session/Replay/Examples.antt =====
-- Two envelopes.
use anyflow.Prelude.{ℕ, ◌≡◌, refl, none, true, [], ◌∷◌, replicate, arith, is_ok, cmp_bytes}
use anyflow.Session.Wire.{Envelope}
use anyflow.Session.Replay.{new, admit}
use anyflow.Session.Replay.History.{last_accepted, run, accepted, admit-run_iff}

abbrev envelope : ℕ → ℕ → Envelope
envelope id sequence = record {
  protocol_version = 1;
  message_id = replicate 16 id;
  sequence = sequence;
  timestamp_unix_ms = 0;
  correlation_id = [];
  body = none;
}

admit-run_iff_example : is_ok (admit (run new (envelope 1 1 ∷ [])) (envelope 2 5)).1 ≡ true
unfolding run accepted admit new cmp_bytes last_accepted
admit-run_iff_example =
    (admit-run_iff (envelope 1 1 ∷ []) (envelope 2 5)).1 (refl, omega arith, refl)
