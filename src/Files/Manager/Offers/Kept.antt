-- ===== src/Files/Manager/Offers/Kept.antt =====
-- What offers (lib.rs) do to the records that are there already.
use anyflow.Prelude.{
  ℕ, ◌≡◌, refl, sym, ◌∙◌, ap, Bool, true, false, Option, none, some, [], Bytes, bytes_key,
  Bool-cases, Option-cases, Result-cases, ◌⊎◌, inl, inr, subst, leb, is_some,
}
use anyflow.Collections.BTreeMap
use anyflow.Files.Filename.{Text, sanitize}
use anyflow.Files.Auth.{StreamChallenge}
use anyflow.Files.Transfer.{
  TransferId, from_bytes, transferring, storage, declined_by_user, revoked, transport, failed,
}
use anyflow.Files.Manager.{
  Fingerprint, Session, FileOffer, IncomingOffer, TransferRecord, Manager, Env, find, change,
  transition, fail, session_for, authorized, active_count_for, max_concurrent_transfers_per_peer,
  clean_up_temp,
}
use anyflow.Files.Manager.Offers.{
  insert, offer_file, send_offer, offered_record, on_offer, take_offer, waiting_record,
  validate_offer, begin_transfer, prepared, await_approval, challenge_for,
}
use anyflow.Files.Manager.Evolution.{
  Evolves, Evolves-refl, alike, Evolves-trans, edit-Evolves, edit-transition-Evolves,
  insert-Evolves, insert-others, transition-Evolves, fail-Evolves, clean_up_temp-Evolves,
}

free_if : (o : Option TransferRecord) → is_some o ≡ false → o ≡ none
free_if none h = refl
free_if (some r) h = cc

session_for-transfers :
    (e : Env) (m : Manager) (peer : Fingerprint) → (session_for e m peer).0.transfers ≡ m.transfers
unfolding session_for
session_for-transfers e m peer = elim (Option-cases (BTreeMap.get peer m.sessions)) [
  | inl none_there ↦ rw (session_for, none_there) refl
  | inr (tx, there) ↦ elim (Bool-cases (e.is_closed tx)) [
    | inl shut ↦ rw (session_for, there, shut) refl
    | inr up ↦ rw (session_for, there, up) refl
  ]
]

send_offer-Evolves :
    (e : Env) (peer : Fingerprint) (session : Session) (filename : Text) (h : ℕ × Bytes)
    (id : TransferId) (path : Bytes) (m : Manager)
    → find m id ≡ none
    → Evolves m (send_offer e peer session filename h id path m).1.0
unfolding send_offer offered_record
send_offer-Evolves e peer session filename (size, digest) id path m free =
    let r =
      offered_record m e id peer session filename size digest (e.guess_mime_type filename) path in
    let m' = record m { transfers = BTreeMap.insert id.bytes r m.transfers } in
    elim (Bool-cases (e.delivers session)) [
      | inl went ↦ rw went (insert-Evolves r m free)
      | inr lost ↦ rw lost (
          Evolves-trans m m' (transition e id failed (some transport) m').1.0
            (insert-Evolves r m free) (transition-Evolves e id failed (some transport) m'))
    ]

-- An offer that is sent, under an id that is new, leaves what is there.
pub offer_file-Evolves :
    (e : Env) (peer : Fingerprint) (path : Bytes) (name : Option Text) (hashed : Option (ℕ × Bytes))
    (drawn : Option TransferId) (m : Manager)
    → ((id : TransferId) → drawn ≡ some id → find m id ≡ none)
    → Evolves m (offer_file e peer path name hashed drawn m).1.0
unfolding offer_file BTreeMap.get
offer_file-Evolves e peer path name hashed drawn m free =
    let m' = (session_for e m peer).0 in
    let same : Evolves m m' = alike m m' (session_for-transfers e m peer) in
    elim (Bool-cases (authorized e peer)) [
      | inr denied ↦ rw (denied) (Evolves-refl m)
      | inl granted ↦ elim (Option-cases (session_for e m peer).1) [
        | inl off ↦ rw (granted, off) same
        | inr (session, on) ↦
            elim (Bool-cases (leb max_concurrent_transfers_per_peer (active_count_for peer m'))) [
              | inl many ↦ rw (granted, on, many) same
              | inr few ↦ elim (Option-cases (sanitize (elim name [ none ↦ [] | some n ↦ n ]))) [
                | inl unsafe ↦ rw (granted, on, few, unsafe) same
                | inr (filename, safe) ↦ elim (Option-cases hashed) [
                  | inl unread ↦ rw (granted, on, few, safe, unread) same
                  | inr (h, read) ↦ elim (Option-cases drawn) [
                    | inl undrawn ↦ rw (granted, on, few, safe, read, undrawn) same
                    | inr (id, new_id) ↦
                        rw (granted, on, few, safe, read, new_id)
                          (Evolves-trans m m' (send_offer e peer session filename h id path m').1.0
                            same
                            (send_offer-Evolves e peer session filename h id path m' (
                              ap (BTreeMap.get id.bytes) (session_for-transfers e m peer)
                              ∙ free id new_id)))
                  ]
                ]
              ]
            ]
      ]
    ]

-- What taking an offer may do to the manager: nothing, or a record under an id that was free.
abbrev Inserted : Manager → Manager → Type 0
Inserted m m' = (m' ≡ m) ⊎ ((r : TransferRecord) × ((find m r.id ≡ none) × (m' ≡ insert r m)))

take_offer-Inserted :
    (e : Env) (peer : Fingerprint) (device : Bytes) (session : Session) (o : FileOffer)
    (id : TransferId) (name : Option Text) (m : Manager)
    → find m id ≡ none
    → Inserted m (take_offer e peer device session o id name m).0
unfolding take_offer waiting_record
take_offer-Inserted e peer device session o id none m free = inl refl
take_offer-Inserted e peer device session o id (some filename) m free =
    inr (waiting_record m e id peer session filename o, (free, refl))

on_offer-Inserted :
    (e : Env) (peer : Fingerprint) (device : Bytes) (session : Session) (o : FileOffer)
    (m : Manager)
    → Inserted m (on_offer e peer device session o m).1.0
unfolding on_offer BTreeMap.get
on_offer-Inserted e peer device session o m = elim (Option-cases (from_bytes o.transfer_id)) [
  | inl bad ↦ rw (on_offer, bad) (inl refl)
  | inr (id, good) ↦ elim (Bool-cases (authorized e peer)) [
    | inr denied ↦ rw (on_offer, good, denied) (inl refl)
    | inl granted ↦ elim (Bool-cases (is_some (find m id))) [
      | inl known ↦ rw (on_offer, good, granted, known) (inl refl)
      | inr new_id ↦ elim (Result-cases (validate_offer m o)) [
        | inr (reason, invalid) ↦ rw (on_offer, good, granted, new_id, invalid) (inl refl)
        | inl (x, valid) ↦
            elim (Bool-cases (leb max_concurrent_transfers_per_peer (active_count_for peer m))) [
              | inl many ↦ rw (on_offer, good, granted, new_id, valid, many) (inl refl)
              | inr few ↦
                  rw (on_offer, good, granted, new_id, valid, few)
                    (take_offer-Inserted e peer device session o id (sanitize o.filename) m
                      (free_if (find m id) new_id))
            ]
      ]
    ]
  ]
]

pub on_offer-Evolves :
    (e : Env) (peer : Fingerprint) (device : Bytes) (session : Session) (o : FileOffer)
    (m : Manager)
    → Evolves m (on_offer e peer device session o m).1.0
on_offer-Evolves e peer device session o m = elim (on_offer-Inserted e peer device session o m) [
  | inl same ↦ subst (Evolves m) (sym same) (Evolves-refl m)
  | inr (r, (free, same)) ↦ subst (Evolves m) (sym same) (insert-Evolves r m free)
]

-- An offer from a peer changes no record that is there.
pub on_offer-inserts :
    (e : Env) (peer : Fingerprint) (device : Bytes) (session : Session) (o : FileOffer)
    (m : Manager) (j : Bytes) (q : TransferRecord)
    → BTreeMap.get j m.transfers ≡ some q
    → BTreeMap.get j (on_offer e peer device session o m).1.0.transfers ≡ some q
on_offer-inserts e peer device session o m j q at =
    elim (on_offer-Inserted e peer device session o m) [
      | inl same ↦ rw same at
      | inr (r, (free, same)) ↦ rw same (insert-others r m free j q at)
    ]

begin_transfer-Evolves :
    (e : Env) (id : TransferId) (session : Session) (temp : Bytes)
    (challenge : Option StreamChallenge) (m : Manager)
    → Evolves m (begin_transfer e id session temp challenge m).0
unfolding begin_transfer BTreeMap.get
begin_transfer-Evolves e id session temp challenge m =
    let m' = change id (prepared temp challenge) m in
    let first = edit-Evolves id (prepared temp challenge) m λ r. (refl, (refl, (refl, refl))) in
    let m'' = (transition e id transferring none m').1.0 in
    let second = edit-transition-Evolves e id (prepared temp challenge) transferring none m first in
    elim (Bool-cases (is_some (find m id))) [
      | inr gone ↦ rw (gone) (Evolves-refl m)
      | inl there ↦ elim (Bool-cases (transition e id transferring none m').0) [
        | inr late ↦
            rw (there, late)
              (Evolves-trans m m' (clean_up_temp id m').0 first (clean_up_temp-Evolves id m'))
        | inl goes ↦ elim (Bool-cases (e.delivers session)) [
          | inl told ↦ rw (there, goes, told) second
          | inr lost ↦
              rw (there, goes, lost)
                (Evolves-trans m m'' (fail e id transport m'').0 second
                  (fail-Evolves e id transport m''))
        ]
      ]
    ]

pub await_approval-Evolves :
    (e : Env) (request : IncomingOffer) (session : Session) (accepted : Bool) (temp : Option Bytes)
    (m : Manager)
    → Evolves m (await_approval e request session accepted temp m).0
unfolding await_approval BTreeMap.get
await_approval-Evolves e request session false temp m =
    (fail-Evolves e request.transfer_id declined_by_user m)
await_approval-Evolves e request session true temp m =
    elim (Bool-cases (authorized e request.peer)) [
      | inr denied ↦ rw (denied) (fail-Evolves e request.transfer_id revoked m)
      | inl granted ↦ elim (Option-cases temp) [
        | inl unopened ↦ rw (granted, unopened) (fail-Evolves e request.transfer_id storage m)
        | inr (path, opened) ↦ elim (Option-cases (challenge_for e m.role)) [
          | inl undrawn ↦
              rw (granted, opened, undrawn) (fail-Evolves e request.transfer_id storage m)
          | inr (challenge, drawn) ↦
              rw (granted, opened, drawn)
                (begin_transfer-Evolves e request.transfer_id session path challenge m)
        ]
      ]
    ]
