-- ===== src/Files/Manager/Reaper.antt =====
-- desktop/capabilities/files/src/lib.rs: the reaper, which ends transfers that cannot finish, and the
-- bound on the finished ones that are kept.
pub mod Kept
use anyflow.Prelude.{
  ℕ, ◌-◌, Bool, true, false, not, ◌&&◌, ◌||◌, Option, none, some, List, [], ◌∷◌, ◌++◌, map, keep,
  length, take, leb, ltb, if◌then◌else◌, Bytes, bytes_key, ◌=?◌,
}
use anyflow.Collections.BTreeMap
use anyflow.Collections.BTreeMap.{values}
use anyflow.Files.Transfer.{
  TransferId, is_terminal, is_active, FailureReason, transport, timed_out, revoked,
}
use anyflow.Files.Manager.{TransferRecord, Manager, Env, Did, authorized, fail, fail_all, Transfers}

-- Why a transfer that is in flight is ended in the first pass, if it is.
pub doom : Env → TransferRecord → Option FailureReason
doom e r =
    if e.is_closed r.session
    then some transport
    else if not r.stream_active && leb r.deadline e.now
    then some timed_out
    else none

pub doomed : Env → List TransferRecord → List (TransferId × FailureReason)
unfolding doom is_active
doomed e [] = []
doomed e (r ∷ rs) =
    if not (is_active r.state)
    then doomed e rs
    else elim (doom e r) [ none ↦ doomed e rs | some why ↦ (r.id, why) ∷ doomed e rs ]

pub to_check : Env → List TransferRecord → List (TransferId × Bytes)
unfolding doom is_active
to_check e [] = []
to_check e (r ∷ rs) =
    if not (is_active r.state)
    then to_check e rs
    else elim (doom e r) [ none ↦ (r.id, r.peer) ∷ to_check e rs | some why ↦ to_check e rs ]

-- Authorization is asked again, of the host as it answers now.
pub unauthorized : Env → List (TransferId × Bytes) → List (TransferId × FailureReason)
unfolding authorized
unauthorized e [] = []
unauthorized e ((id, peer) ∷ rest) =
    if not (authorized e peer) then (id, revoked) ∷ unauthorized e rest else unauthorized e rest

unfoldable pub reap_once : Env → Manager → Did
unfolding doomed to_check unauthorized fail_all
reap_once e m =
    let records = values m.transfers in
    let (m', actions) = fail_all e (doomed e records) m in
    let (m'', later) = fail_all e (unauthorized e (to_check e records)) m' in
    (m'', actions ++ later)

-- Ordered by the number of creation; the numbers are all different.
pub insert_by_seq : ℕ × TransferId → List (ℕ × TransferId) → List (ℕ × TransferId)
insert_by_seq x [] = x ∷ []
insert_by_seq x (y ∷ ys) = if leb x.0 y.0 then x ∷ y ∷ ys else y ∷ insert_by_seq x ys

pub sort_by_seq : List (ℕ × TransferId) → List (ℕ × TransferId)
unfolding insert_by_seq
sort_by_seq [] = []
sort_by_seq (x ∷ xs) = insert_by_seq x (sort_by_seq xs)

pub finished : Manager → List (ℕ × TransferId)
unfolding is_terminal
finished m = map (λ r. (r.seq, r.id)) (keep (λ r. is_terminal r.state) (values m.transfers))

pub remove_all : List (ℕ × TransferId) → Transfers → Transfers
unfolding BTreeMap.remove
remove_all [] ts = ts
remove_all ((seq, id) ∷ rest) ts = remove_all rest (BTreeMap.remove id.bytes ts)

pub forget_finished : ℕ → Manager → Manager
unfolding finished sort_by_seq remove_all
forget_finished kept m =
    let done = finished m in
    if leb (length done) kept then m else record m {
      transfers = remove_all (take (length done - kept) (sort_by_seq done)) m.transfers;
    }
