-- ===== src/Files/Manager/Examples.antt =====
-- A file from a phone, and another device that meddles (lib.rs), with the key in place of HMAC.
use anyflow.Prelude.{
  Bool, ◌≡◌, refl, true, false, none, some, [], ◌∷◌, replicate, Bytes, ◌=?◌, =?_iff, bytes_key,
  cmp_bytes, ok, Result, is_some,
}
use anyflow.Collections.BTreeMap
use anyflow.Session.Pairing.{Crypto}
use anyflow.Files.Auth.{StreamChallenge, compute_stream_mac}
use anyflow.Files.Transfer.{
  TransferId, transferring, completed, FailureReason, WireReason, is_terminal, can_transition_to,
}
use anyflow.Files.Manager.{
  receiving, acceptor, Body, TransferRecord, Manager, Env, find, with_destination, authorized,
  transition, moved, change, clean_up_temp, fail,
}
use anyflow.Files.Manager.Answers.{handle_control}
use anyflow.Files.Manager.Answers.Owned.{others_untouched}
use anyflow.Files.Manager.Streams.{run_stream, StreamPlan, run_receive, on_promoted, check_stream}
use anyflow.Files.Manager.Streams.Admitted.{Admission, check_stream_iff, check_stream_once}
use anyflow.Files.Manager.Streams.Verified.{is_promotion, promoted-verified}
use anyflow.Files.Manager.Events.{cancels, reaps, run, step}
use anyflow.Files.Manager.Reaper.{reap_once}
use anyflow.Files.Manager.Events.Kept.{all_keep, keeps, finished_stays}

abbrev plain : Crypto
plain = record { hmac = λ key message. key; ct_eq = λ a b. a =? b; ct_eq_iff = λ a b n. =?_iff a b }

abbrev phone : Bytes
phone = 1 ∷ []

abbrev tablet : Bytes
tablet = 2 ∷ []

abbrev id : TransferId
id = record { bytes = replicate 16 3 }

abbrev challenge : StreamChallenge
challenge = record { bytes = 8 ∷ [] }

abbrev running : TransferRecord
running = record {
  seq = 1;
  id = id;
  peer = phone;
  direction = receiving;
  filename = b'a' ∷ [];
  size_bytes = 1;
  sha256 = 9 ∷ [];
  mime_type = [];
  state = transferring;
  challenge = some challenge;
  source = none;
  temp = some (b't' ∷ []);
  stored_at = none;
  failure = none;
  is_stopped = false;
  session = 5;
  deadline = 30;
  stream_active = false;
}

abbrev holding : TransferRecord → Manager
holding r = record {
  role = acceptor;
  local_fingerprint = 4 ∷ [];
  config = with_destination;
  transfers = (id.bytes, r) ∷ [];
  sessions = [];
}

abbrev env : Env
env = record {
  now = 10;
  next_seq = 2;
  authorizer = some (λ peer. true);
  delivers = λ s. true;
  is_closed = λ s. false;
  generates = none;
  guess_mime_type = λ name. [];
}

abbrev stored : TransferRecord
stored = record running { state = completed; challenge = none }

finished_stays_example :
    (r' : TransferRecord) × ((find
          (run plain ((env, cancels id) ∷ (env, reaps) ∷ []) (holding stored))
          id
        ≡ some r')
      × (((r'.state ≡ completed) × (r'.failure ≡ none))
          × ((r'.peer ≡ phone) × (◌≡◌ {A = Bytes} r'.sha256 (9 ∷ [])))))
unfolding all_keep keeps BTreeMap.get is_terminal cmp_bytes
finished_stays_example =
    finished_stays plain ((env, cancels id) ∷ (env, reaps) ∷ []) (holding stored) id stored refl
      refl refl

others_untouched_example :
    find
      (handle_control env tablet [] 6
        (some (Body.cancel id.bytes WireReason.cancelled_by_user))
        (holding running)).1.0
      id
    ≡ some running
unfolding BTreeMap.get cmp_bytes
others_untouched_example =
    others_untouched env tablet [] 6 (some (Body.cancel id.bytes WireReason.cancelled_by_user))
      (holding running) id running refl refl

abbrev plan : StreamPlan
plan = record {
  direction = receiving;
  size_bytes = 1;
  sha256 = 9 ∷ [];
  source = none;
  temp = some (b't' ∷ []);
  filename = b'a' ∷ [];
  session = 5;
}

promoted-verified_example :
    (◌≡◌ {A = Bool} true true)
    × ((q r : TransferRecord) × ((find (holding running) id ≡ some q)
          × ((find (run plain ((env, reaps) ∷ []) (holding running)) id ≡ some r)
              × ((r.state ≡ transferring)
                  × ((◌≡◌ {A = Result Bytes FailureReason} (ok (9 ∷ [])) (ok q.sha256))
                      × (◌≡◌ {A = Result Bytes FailureReason} (ok (9 ∷ [])) (ok r.sha256)))))))
unfolding run_receive on_promoted is_promotion transition moved change fail clean_up_temp
    BTreeMap.get BTreeMap.modify can_transition_to is_terminal cmp_bytes run_stream all_keep keeps
    run step reap_once
promoted-verified_example =
    promoted-verified plain ((env, reaps) ∷ []) (holding running) env id plan (b't' ∷ [])
      (ok (9 ∷ [])) true (some (b'a' ∷ [])) refl refl refl

abbrev mac : Bytes
mac = compute_stream_mac plain challenge (4 ∷ []) phone id

admission : Admission plain (4 ∷ []) id phone mac running
admission = record { own = refl; runs = refl; challenge = challenge; unused = refl; proven = refl }

check_stream_iff_example : (check_stream plain env id phone mac (holding running)).0 ≡ none
unfolding authorized BTreeMap.get cmp_bytes
check_stream_iff_example =
    (check_stream_iff plain env id phone mac (holding running)).1
      (refl, (running, (refl, admission)))

check_stream_once_example :
    is_some
      (check_stream plain env id phone mac
        (check_stream plain env id phone mac (holding running)).1).0
    ≡ true
check_stream_once_example =
    check_stream_once plain env env id phone phone mac mac (holding running)
      check_stream_iff_example
