-- ===== src/Files/Manager/Evolution.antt =====
-- How the records of the manager (lib.rs) change: the building blocks, for the handlers.
use anyflow.Prelude.{
  ◌≡◌, refl, sym, ◌∙◌, ap, true, Option, none, some, List, [], ◌∷◌, if◌then◌else◌, Bytes, bytes_key,
  ◌=?◌, =?_iff, arith, Bool-cases, Option-cases, inl, inr, subst,
}
use anyflow.Collections.BTreeMap
use anyflow.Collections.BTreeMap.{get-modify, get-insert}
use anyflow.Files.Transfer.{
  TransferId, TransferState, FailureReason, is_terminal, can_transition_to,
}
use anyflow.Files.Manager.{
  TransferRecord, Manager, Env, find, change, moved, without_temp, clean_up_temp, transition,
  ending, fail, fail_all,
}
use anyflow.Files.Manager.Offers.{insert}

-- What no handler changes of a record, and that a finished transfer stays as it ended.
pub record Grows (r r' : TransferRecord) : Type 0 where
  pub same_peer : r'.peer ≡ r.peer
  pub same_digest : r'.sha256 ≡ r.sha256
  pub stays : is_terminal r.state ≡ true → (r'.state ≡ r.state) × (r'.failure ≡ r.failure)

pub Grows-refl : (r : TransferRecord) → Grows r r
Grows-refl r = record { same_peer = refl; same_digest = refl; stays = λ t. (refl, refl) }

pub Grows-trans : (r s t : TransferRecord) → Grows r s → Grows s t → Grows r t
Grows-trans r s t g h = record {
  same_peer = h.same_peer ∙ g.same_peer;
  same_digest = h.same_digest ∙ g.same_digest;
  stays =
      λ f. let (a, b) = g.stays f in let (c, d) = h.stays (ap is_terminal a ∙ f) in (c ∙ a, d ∙ b);
}

-- Every record of `m` is still there in `m'`, grown.
abbrev pub Evolves : Manager → Manager → Type 0
Evolves m m' =
    (id : Bytes) (r : TransferRecord)
    → BTreeMap.get id m.transfers ≡ some r
    → (r' : TransferRecord) × ((BTreeMap.get id m'.transfers ≡ some r') × Grows r r')

pub Evolves-refl : (m : Manager) → Evolves m m
Evolves-refl m id r e = (r, (e, Grows-refl r))

pub Evolves-trans : (m n o : Manager) → Evolves m n → Evolves n o → Evolves m o
Evolves-trans m n o f g id r e =
    let (s, (e', h)) = f id r e in
    let (t, (e'', k)) = g id s e' in (t, (e'', Grows-trans r s t h k))

pub change-Evolves :
    (id : TransferId) (f : TransferRecord → TransferRecord) (m : Manager)
    → ((r : TransferRecord) → BTreeMap.get id.bytes m.transfers ≡ some r → Grows r (f r))
    → Evolves m (change id f m)
unfolding change
change-Evolves id f m grows j r e = elim (Bool-cases (j =? id.bytes)) [
  | inl same ↦ (
    f r,
    (
      rw (get-modify id.bytes j f m.transfers, same, e),
      grows r (subst (λ k. BTreeMap.get k m.transfers ≡ some r) ((=?_iff j id.bytes).0 same) e),
    ),
  )
  | inr other ↦ (r, (rw (get-modify id.bytes j f m.transfers, other, e), Grows-refl r))
]

no_way_back : (s next : TransferState) → can_transition_to s next ≡ true → is_terminal s ≡ true → ⊥
unfolding can_transition_to is_terminal
no_way_back s next h t = ground arith

pub moved-Grows :
    (m : Manager) (e : Env) (next : TransferState) (failure : Option FailureReason)
    (r : TransferRecord)
    → can_transition_to r.state next ≡ true
    → Grows r (moved m.config e next failure r)
unfolding moved
moved-Grows m e next failure r h = record {
  same_peer = refl;
  same_digest = refl;
  stays = λ t. absurd (no_way_back r.state next h t);
}

pub clean_up_temp-Evolves : (id : TransferId) (m : Manager) → Evolves m (clean_up_temp id m).0
unfolding clean_up_temp
clean_up_temp-Evolves id m =
    change-Evolves id without_temp m
      λ r e. record { same_peer = refl; same_digest = refl; stays = λ t. (refl, refl) }

may_still :
    (r q : TransferRecord) (next : TransferState)
    → some r ≡ some q
    → can_transition_to r.state next ≡ true
    → can_transition_to q.state next ≡ true
may_still r q next e may = cc

-- A step that is permitted, and the removal of the partial file where it is the last.
settled-Evolves :
    (e : Env) (id : TransferId) (next : TransferState) (failure : Option FailureReason)
    (m : Manager) (r : TransferRecord)
    → find m id ≡ some r
    → can_transition_to r.state next ≡ true
    → Evolves m
        (if is_terminal next
          then clean_up_temp id (change id (moved m.config e next failure) m)
          else (change id (moved m.config e next failure) m, [])).0
settled-Evolves e id next failure m r found may =
    let m' = change id (moved m.config e next failure) m in
    let first =
      change-Evolves id (moved m.config e next failure) m
        λ q e'. moved-Grows m e next failure q (may_still r q next (sym found ∙ e') may) in
    elim (Bool-cases (is_terminal next)) [
      | inl last ↦
          rw last (Evolves-trans m m' (clean_up_temp id m').0 first (clean_up_temp-Evolves id m'))
      | inr more ↦ rw more first
    ]

pub transition-Evolves :
    (e : Env) (id : TransferId) (next : TransferState) (failure : Option FailureReason)
    (m : Manager)
    → Evolves m (transition e id next failure m).1.0
unfolding transition
transition-Evolves e id next failure m = elim (Option-cases (find m id)) [
  | inl gone ↦ rw (transition, gone) (Evolves-refl m)
  | inr (r, found) ↦ elim (Bool-cases (can_transition_to r.state next)) [
    | inr refused ↦ rw (transition, found, refused) (Evolves-refl m)
    | inl may ↦ rw (transition, found, may) (settled-Evolves e id next failure m r found may)
  ]
]

pub fail-Evolves :
    (e : Env) (id : TransferId) (reason : FailureReason) (m : Manager)
    → Evolves m (fail e id reason m).0
unfolding fail
fail-Evolves e id reason m = transition-Evolves e id (ending reason) (some reason) m

pub fail_all-Evolves :
    (e : Env) (doomed : List (TransferId × FailureReason)) (m : Manager)
    → Evolves m (fail_all e doomed m).0
unfolding fail_all
fail_all-Evolves e [] m = Evolves-refl m
fail_all-Evolves e ((id, reason) ∷ rest) m =
    let m' = (fail e id reason m).0 in
    Evolves-trans m m' (fail_all e rest m').0 (fail-Evolves e id reason m)
      (fail_all-Evolves e rest m')

pub alike : (m m' : Manager) → m'.transfers ≡ m.transfers → Evolves m m'
alike m m' same id r e = (r, (ap (BTreeMap.get id) same ∙ e, Grows-refl r))

-- A change that leaves alone what `Grows` is about.
pub edit-Evolves :
    (id : TransferId) (f : TransferRecord → TransferRecord) (m : Manager)
    → ((r : TransferRecord)
        → ((f r).peer ≡ r.peer)
          × (((f r).sha256 ≡ r.sha256) × (((f r).state ≡ r.state) × ((f r).failure ≡ r.failure))))
    → Evolves m (change id f m)
edit-Evolves id f m same =
    change-Evolves id f m λ r e. record {
      same_peer = (same r).0;
      same_digest = (same r).1.0;
      stays = λ t. (same r).1.1;
    }

-- An edit, and a transition after it.
pub edit-transition-Evolves :
    (e : Env) (id : TransferId) (f : TransferRecord → TransferRecord) (next : TransferState)
    (failure : Option FailureReason) (m : Manager)
    → Evolves m (change id f m)
    → Evolves m (transition e id next failure (change id f m)).1.0
edit-transition-Evolves e id f next failure m h =
    let m' = change id f m in
    Evolves-trans m m' (transition e id next failure m').1.0 h
      (transition-Evolves e id next failure m')

pub edit-fail-Evolves :
    (e : Env) (id : TransferId) (f : TransferRecord → TransferRecord) (reason : FailureReason)
    (m : Manager)
    → Evolves m (change id f m)
    → Evolves m (fail e id reason (change id f m)).0
edit-fail-Evolves e id f reason m h =
    let m' = change id f m in
    Evolves-trans m m' (fail e id reason m').0 h (fail-Evolves e id reason m')

taken_or_free : {o : Option TransferRecord} {q : TransferRecord} → o ≡ some q → o ≡ none → ⊥
taken_or_free e f = cc

-- A record under a name that was free leaves the others.
pub insert-others :
    (r : TransferRecord) (m : Manager)
    → find m r.id ≡ none
    → (j : Bytes) (q : TransferRecord) → BTreeMap.get j m.transfers ≡ some q
    → BTreeMap.get j (insert r m).transfers ≡ some q
insert-others r m free j q e = elim (Bool-cases (j =? r.id.bytes)) [
  | inl same ↦ absurd (
      taken_or_free
        (subst (λ k. BTreeMap.get k m.transfers ≡ some q) ((=?_iff j r.id.bytes).0 same) e) free)
  | inr other ↦ rw (get-insert r.id.bytes j r m.transfers, other) e
]

pub insert-Evolves :
    (r : TransferRecord) (m : Manager) → find m r.id ≡ none → Evolves m (insert r m)
insert-Evolves r m free j q e = (q, (insert-others r m free j q e, Grows-refl q))
