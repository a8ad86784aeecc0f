-- ===== src/Files/Manager/Events.antt =====
-- desktop/capabilities/files/src/lib.rs: everything that happens to the manager, one step at a time.
pub mod Kept
use anyflow.Prelude.{ℕ, Bool, Option, none, some, List, [], ◌∷◌, Bytes, Result}
use anyflow.Session.Pairing.{Crypto}
use anyflow.Files.Filename.{Text}
use anyflow.Files.Transfer.{TransferId, FailureReason}
use anyflow.Files.Manager.{
  Fingerprint, Session, Body, IncomingOffer, Manager, Env, attach_session, cancel_transfer,
  cancel_peer,
}
use anyflow.Files.Manager.Offers.{offer_file, await_approval}
use anyflow.Files.Manager.Answers.{handle_control}
use anyflow.Files.Manager.Streams.{
  DataStreamAuth, Dialled, StreamPlan, accept_data_stream, take_challenge, on_dialled, open_file,
  run_send, on_no_verdict, run_receive,
}
use anyflow.Files.Manager.Reaper.{reap_once, forget_finished}

pub data Event : Type 0 where
  attaches : Fingerprint → Session → Event
  offers : Fingerprint → Bytes → Option Text → Option (ℕ × Bytes) → Option TransferId → Event
  hears : Fingerprint → Bytes → Session → Option Body → Event
  answers : IncomingOffer → Session → Bool → Option Bytes → Event
  accepts_stream : Fingerprint → Option DataStreamAuth → ℕ → Event
  takes_challenge : TransferId → Event
  dialled : TransferId → Dialled → Event
  opens : TransferId → Bool → Option Bytes → Event
  has_sent : TransferId → Result (Unit {0}) FailureReason → Event
  polls_verdict : TransferId → ℕ → Event
  has_received :
      TransferId → StreamPlan → Bytes → Result Bytes FailureReason → Bool → Option Text → Event
  cancels : TransferId → Event
  cancels_peer : Fingerprint → FailureReason → Event
  reaps : Event
  forgets : ℕ → Event

unfoldable pub step : Crypto → Env → Event → Manager → Manager
step c e (attaches peer session) m = attach_session m peer session
step c e (offers peer path name hashed id) m = (offer_file e peer path name hashed id m).1.0
step c e (hears peer device_id session body) m =
    (handle_control e peer device_id session body m).1.0
step c e (answers request session accepted temp) m =
    (await_approval e request session accepted temp m).0
step c e (accepts_stream peer frame version) m = (accept_data_stream c e peer frame version m).1
step c e (takes_challenge id) m = (take_challenge c id m).1
step c e (dialled id how) m = (on_dialled e id how m).0
step c e (opens id is_there path) m = (open_file e id is_there path m).1.0
step c e (has_sent id result) m = (run_send e id result m).0
step c e (polls_verdict id deadline) m = (on_no_verdict e id deadline m).0
step c e (has_received id plan temp result syncs promoted) m =
    (run_receive e id plan temp result syncs promoted m).0
step c e (cancels id) m = (cancel_transfer e id m).1.0
step c e (cancels_peer peer reason) m = (cancel_peer e peer reason m).0
step c e reaps m = (reap_once e m).0
step c e (forgets kept) m = forget_finished kept m

unfoldable pub run : Crypto → List (Env × Event) → Manager → Manager
unfolding step
run c [] m = m
run c ((e, v) ∷ rest) m = run c rest (step c e v m)
