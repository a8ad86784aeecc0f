-- ===== src/Files/Manager/Events/Kept.antt =====
-- What any run of the manager (lib.rs) does to a transfer.
use anyflow.Prelude.{
  map, keep, subst, ◌≡◌, refl, Bool, true, false, not, ◌&&◌, Option, none, some, List, [], ◌∷◌,
  bytes_key, is_some, Bool-cases, inl, inr,
}
use anyflow.Collections.BTreeMap.{values}
use anyflow.Session.Pairing.{Crypto}
use anyflow.Files.Transfer.{TransferId, is_terminal, cancelled_by_user}
use anyflow.Files.Manager.{
  TransferRecord, Manager, Env, find, is_live, is_active_with, attach_session, cancel_transfer,
  cancel_peer,
}
use anyflow.Files.Manager.Events.{
  Event, attaches, offers, hears, answers, accepts_stream, takes_challenge, dialled, opens,
  has_sent, polls_verdict, has_received, cancels, cancels_peer, reaps, forgets, step, run,
}
use anyflow.Files.Manager.Evolution.{
  Evolves, Evolves-refl, Evolves-trans, fail-Evolves, fail_all-Evolves, alike,
}
use anyflow.Files.Manager.Offers.Kept.{offer_file-Evolves, await_approval-Evolves}
use anyflow.Files.Manager.Answers.Kept.{handle_control-Evolves}
use anyflow.Files.Manager.Streams.Kept.{
  accept_data_stream-Evolves, take_challenge-Evolves, on_dialled-Evolves, open_file-Evolves,
  run_send-Evolves, on_no_verdict-Evolves, run_receive-Evolves,
}
use anyflow.Files.Manager.Reaper.Kept.{reap_once-Evolves}

cancel_transfer-Evolves :
    (e : Env) (id : TransferId) (m : Manager) → Evolves m (cancel_transfer e id m).1.0
unfolding cancel_transfer
cancel_transfer-Evolves e id m = elim (Bool-cases (is_live (find m id))) [
  | inr over ↦ rw (cancel_transfer, over) (Evolves-refl m)
  | inl live ↦ rw (cancel_transfer, live) (fail-Evolves e id cancelled_by_user m)
]

-- An id that is drawn for an offer is new, and no record is forgotten.
unfoldable pub keeps : Event → Manager → Bool
keeps (forgets kept) m = false
keeps (offers peer path name hashed (some id)) m = not (is_some (find m id))
keeps _ m = true

free_if : (o : Option TransferRecord) → not (is_some o) ≡ true → o ≡ none
free_if none h = refl
free_if (some r) h = cc

new_id :
    (i j : TransferId) (m : Manager)
    → not (is_some (find m i)) ≡ true
    → some i ≡ some j
    → find m j ≡ none
new_id i j m h e = let same : i ≡ j = cc in subst (λ k. find m k ≡ none) same (free_if (find m i) h)

nothing_drawn : {i : TransferId} → ◌≡◌ {A = Option TransferId} none (some i) → ⊥
nothing_drawn e = cc

both : (a b : Bool) → (a && b) ≡ true → (a ≡ true) × (b ≡ true)
both true b h = (refl, h)
both false b h = cc

pub step-Evolves :
    (c : Crypto) (e : Env) (v : Event) (m : Manager) → keeps v m ≡ true → Evolves m (step c e v m)
unfolding step keeps attach_session cancel_peer
step-Evolves c e (attaches peer session) m h = alike m (attach_session m peer session) refl
step-Evolves c e (offers peer path name hashed none) m h =
    offer_file-Evolves e peer path name hashed none m λ id f. absurd (nothing_drawn f)
step-Evolves c e (offers peer path name hashed (some id)) m h =
    offer_file-Evolves e peer path name hashed (some id) m λ j f. new_id id j m h f
step-Evolves c e (hears peer device session body) m h =
    handle_control-Evolves e peer device session body m
step-Evolves c e (answers request session accepted temp) m h =
    await_approval-Evolves e request session accepted temp m
step-Evolves c e (accepts_stream peer frame version) m h =
    accept_data_stream-Evolves c e peer frame version m
step-Evolves c e (takes_challenge id) m h = take_challenge-Evolves c id m
step-Evolves c e (dialled id how) m h = on_dialled-Evolves e id how m
step-Evolves c e (opens id is_there path) m h = open_file-Evolves e id is_there path m
step-Evolves c e (has_sent id result) m h = run_send-Evolves e id result m
step-Evolves c e (polls_verdict id deadline) m h = on_no_verdict-Evolves e id deadline m
step-Evolves c e (has_received id plan temp result syncs promoted) m h =
    run_receive-Evolves e id plan temp result syncs promoted m
step-Evolves c e (cancels id) m h = cancel_transfer-Evolves e id m
step-Evolves c e (cancels_peer peer reason) m h =
    fail_all-Evolves e (map (λ r. (r.id, reason)) (keep (is_active_with peer) (values m.transfers)))
      m
step-Evolves c e reaps m h = reap_once-Evolves e m
step-Evolves c e (forgets kept) m h = cc

unfoldable pub all_keep : Crypto → List (Env × Event) → Manager → Bool
all_keep c [] m = true
all_keep c ((e, v) ∷ rest) m = keeps v m && all_keep c rest (step c e v m)

pub run-Evolves :
    (c : Crypto) (events : List (Env × Event)) (m : Manager)
    → all_keep c events m ≡ true
    → Evolves m (run c events m)
unfolding run all_keep
run-Evolves c [] m h = Evolves-refl m
run-Evolves c ((e, v) ∷ rest) m h =
    let (first, later) = both (keeps v m) (all_keep c rest (step c e v m)) h in
    Evolves-trans m (step c e v m) (run c rest (step c e v m)) (step-Evolves c e v m first)
      (run-Evolves c rest (step c e v m) later)

-- Whatever happens to the manager, as long as each id that is drawn for an offer is new and no record
-- is forgotten: a transfer that has ended keeps its state, its reason, its peer and its digest.
pub finished_stays :
    (c : Crypto) (events : List (Env × Event)) (m : Manager) (id : TransferId) (r : TransferRecord)
    → all_keep c events m ≡ true
    → find m id ≡ some r
    → is_terminal r.state ≡ true
    → (r' : TransferRecord) × ((find (run c events m) id ≡ some r')
        × (((r'.state ≡ r.state) × (r'.failure ≡ r.failure))
            × ((r'.peer ≡ r.peer) × (r'.sha256 ≡ r.sha256))))
finished_stays c events m id r h found over =
    let (r', (there, g)) = run-Evolves c events m h id.bytes r found in
    (r', (there, (g.stays over, (g.same_peer, g.same_digest))))
