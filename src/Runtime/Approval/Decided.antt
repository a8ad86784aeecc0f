-- ===== src/Runtime/Approval/Decided.antt =====
-- A yes is a person's, to that offer (approval.rs).
use mathlib.Core.List.{append-nil, append_assoc}
use anyflow.Prelude.{
  ℕ, ◌≡◌, refl, sym, ap, ◌∙◌, Bool, true, false, not, ◌&&◌, Option, none, some, List, [], ◌∷◌, ◌++◌,
  map, any, ◌==◌, ==_iff, if◌then◌else◌, Bytes, bytes_key, ◌=?◌, =?_iff, =?_refl, arith, Bool-cases,
  inl, inr, any-append,
}
use anyflow.Collections.BTreeMap
use anyflow.Collections.BTreeMap.{BTreeMap, values, get-insert, get-remove}
use anyflow.Runtime.Approval.{
  unknown, Pending, FileApproval, IncomingOffer, TrySend, sent, full, closed, Answer, no_to, new,
  attach, detach, without, answer_to, decision_on, decide, withdraw, ask, confirm_receive, Event,
  attaches, detaches, asks, decides, withdraws, step, run,
}

-- The event asks question `q` about the transfer `t`.
abbrev pub is_ask : ℕ → Bytes → Event → Bool
is_ask q t (asks offer question s) = question == q && offer.transfer_id =? t
is_ask q t _ = false

abbrev pub asks_about : Bytes → Event → Bool
asks_about t (asks offer question s) = offer.transfer_id =? t
asks_about t _ = false

-- Question `q` is answered with yes.
abbrev pub says_yes : ℕ → List Answer → Bool
says_yes q answers = any (λ (a : Answer). a.question == q && a.accepted) answers

-- Whatever is pending was asked.
record AreAsked (before : List Event) (a : FileApproval) : Type 0 where
  asked :
      (t : Bytes) (p : Pending)
      → BTreeMap.get t a.pending ≡ some p
      → any (is_ask p.reply t) before ≡ true

some-injective : {A : Type 0} {x y : A} → some x ≡ some y → x ≡ y
some-injective e = cc

any-more :
    (p : Event → Bool) (before : List Event) (e : Event)
    → any p before ≡ true
    → any p (before ++ e ∷ []) ≡ true
any-more p before e h = ground (arith, any-append p before (e ∷ []))

any-last :
    (p : Event → Bool) (before : List Event) (e : Event)
    → p e ≡ true
    → any p (before ++ e ∷ []) ≡ true
any-last p before e h = ground (arith, any-append p before (e ∷ []))

same-AreAsked :
    (before : List Event) (a : FileApproval) (e : Event)
    → AreAsked before a
    → AreAsked (before ++ e ∷ []) a
same-AreAsked before a e h = record {
  asked = λ t p g. any-more (is_ask p.reply t) before e (h.asked t p g);
}

empty-AreAsked : (before : List Event) (a : FileApproval) → a.pending ≡ [] → AreAsked before a
unfolding BTreeMap.get
empty-AreAsked before a e = record {
  asked = λ t p g. let n : none ≡ some p = rw e at g in absurd (cc);
}

without-AreAsked :
    (before : List Event) (a : FileApproval) (t : Bytes) (e : Event)
    → AreAsked before a
    → AreAsked (before ++ e ∷ []) (without a t)
without-AreAsked before a t e h = record {
  asked = λ t' p g.
      let r : (if t' =? t then none else BTreeMap.get t' a.pending) ≡ some p =
        sym (get-remove t t' a.pending) ∙ g in
      any-more (is_ask p.reply t') before e (h.asked t' p (ground arith));
}

ask-AreAsked :
    (before : List Event) (a : FileApproval) (offer : IncomingOffer) (q : ℕ) (s : TrySend)
    → AreAsked before a
    → AreAsked (before ++ asks offer q s ∷ []) (ask a offer q s).0
unfolding ask
ask-AreAsked before a offer q sent h =
    let mine : Pending = record { peer = offer.peer; reply = q } in
    record {
      asked = λ t p g.
          let r : (if t =? offer.transfer_id then some mine else BTreeMap.get t a.pending)
              ≡ some p =
            sym (get-insert offer.transfer_id t mine a.pending) ∙ g in
          elim (Bool-cases (t =? offer.transfer_id)) [
            | inr other ↦
                any-more (is_ask p.reply t) before (asks offer q sent) (h.asked t p (rw other at r))
            | inl same ↦
                let m : some mine ≡ some p = rw same at r in
                let reply : q ≡ p.reply = ap (λ (x : Pending). x.reply) (some-injective m) in
                let name : t ≡ offer.transfer_id = (=?_iff t offer.transfer_id).0 same in
                any-last (is_ask p.reply t) before (asks offer q sent)
                  (rw (← reply, name, (==_iff q q).1 refl, =?_refl offer.transfer_id) refl)
          ];
    }
ask-AreAsked before a offer q full h = same-AreAsked before a (asks offer q full) h
ask-AreAsked before a offer q closed h = same-AreAsked before a (asks offer q closed) h

if-AreAsked :
    (events : List Event) (b : Bool) (x y : FileApproval × List Answer)
    → AreAsked events x.0
    → AreAsked events y.0
    → AreAsked events (if b then x else y).0
if-AreAsked events true x y h k = h
if-AreAsked events false x y h k = k

confirm-AreAsked :
    (before : List Event) (a : FileApproval) (offer : IncomingOffer) (q : ℕ) (s : TrySend)
    → AreAsked before a
    → AreAsked (before ++ asks offer q s ∷ []) (confirm_receive a offer q s).0
unfolding confirm_receive
confirm-AreAsked before a offer q s h =
    let kept = same-AreAsked before a (asks offer q s) h in
    let events : List Event = before ++ asks offer q s ∷ [] in
    let answer : Bool → FileApproval × List Answer =
      λ b. (a, record { question = q; accepted = b } ∷ []) in
    if-AreAsked events a.unattended (answer true)
      (if not a.provider then answer false else ask a offer q s) kept
      (if-AreAsked events (not a.provider) (answer false) (ask a offer q s) kept
        (ask-AreAsked before a offer q s h))

step-AreAsked :
    (before : List Event) (a : FileApproval) (e : Event)
    → AreAsked before a
    → AreAsked (before ++ e ∷ []) (step a e).0
unfolding step attach detach decide withdraw
step-AreAsked before a attaches h = empty-AreAsked (before ++ attaches ∷ []) (attach a).0 refl
step-AreAsked before a (detaches epoch) h = elim (Bool-cases (a.epoch == epoch)) [
  | inr old ↦ rw old (same-AreAsked before a (detaches epoch) h)
  | inl now ↦ rw now (
      empty-AreAsked (before ++ detaches epoch ∷ []) (record a { provider = false; pending = [] })
        refl)
]
step-AreAsked before a (asks offer q s) h = confirm-AreAsked before a offer q s h
step-AreAsked before a (decides t accept) h = without-AreAsked before a t (decides t accept) h
step-AreAsked before a (withdraws t) h = without-AreAsked before a t (withdraws t) h

run-AreAsked :
    (before es : List Event) (a : FileApproval)
    → AreAsked before a
    → AreAsked (before ++ es) (run a es)
unfolding run
run-AreAsked before [] a h = rw (append-nil before) h
run-AreAsked before (e ∷ es) a h =
    rw (← append_assoc before (e ∷ []) es)
      (run-AreAsked (before ++ e ∷ []) es (step a e).0 (step-AreAsked before a e h))

step-unattended : (a : FileApproval) (e : Event) → (step a e).0.unattended ≡ a.unattended
unfolding step attach detach confirm_receive ask decide withdraw
step-unattended a attaches = refl
step-unattended a (detaches epoch) = ground arith
step-unattended a (asks offer q sent) = ground arith
step-unattended a (asks offer q full) = ground arith
step-unattended a (asks offer q closed) = ground arith
step-unattended a (decides t accept) = refl
step-unattended a (withdraws t) = refl

run-unattended : (a : FileApproval) (es : List Event) → (run a es).unattended ≡ a.unattended
unfolding run
run-unattended a [] = refl
run-unattended a (e ∷ es) = run-unattended (step a e).0 es ∙ step-unattended a e

no_yes : (q : ℕ) (ps : List Pending) → says_yes q (map no_to ps) ≡ false
no_yes q [] = refl
no_yes q (p ∷ ps) = ground (arith, no_yes q ps)

answer-no : (q : ℕ) (o : Option Pending) → says_yes q (answer_to o false) ≡ false
answer-no q none = refl
answer-no q (some p) = ground arith

answer-yes :
    (q : ℕ) (o : Option Pending) (accept : Bool)
    → says_yes q (answer_to o accept) ≡ true
    → (p : Pending) × (o ≡ some p) × (p.reply ≡ q) × (accept ≡ true)
answer-yes q none accept h = cc
answer-yes q (some p) accept h = (p, refl, ground arith, ground arith)

confirm-no :
    (a : FileApproval) (offer : IncomingOffer) (q' q : ℕ) (s : TrySend)
    → a.unattended ≡ false
    → says_yes q (confirm_receive a offer q' s).1 ≡ false
unfolding confirm_receive ask
confirm-no a offer q' q sent u =
    ground (arith, answer-no q (BTreeMap.get offer.transfer_id a.pending))
confirm-no a offer q' q full u = ground arith
confirm-no a offer q' q closed u = ground arith

step-yes :
    (before : List Event) (a : FileApproval) (e : Event) (q : ℕ)
    → a.unattended ≡ false
    → AreAsked before a
    → says_yes q (step a e).1 ≡ true
    → (t : Bytes) × (e ≡ decides t true) × (any (is_ask q t) before ≡ true)
unfolding step attach detach decide withdraw
step-yes before a attaches q u h y = absurd (cc (no_yes q (values a.pending)))
step-yes before a (detaches epoch) q u h y = absurd (ground (arith, no_yes q (values a.pending)))
step-yes before a (asks offer q' s) q u h y = absurd (cc (confirm-no a offer q' q s u))
step-yes before a (withdraws t) q u h y = absurd (cc (answer-no q (BTreeMap.get t a.pending)))
step-yes before a (decides t accept) q u h y =
    let (p, found, mine, yes_it) = answer-yes q (BTreeMap.get t a.pending) accept y in
    (t, ap (decides t) yes_it, rw (← mine) (h.asked t p found))

-- While files are not accepted unattended, a question gets a yes only at the moment at which a person
-- says yes to a transfer, and only if it was this question that was asked about this transfer before.
-- A provider that comes or goes, a full queue, a withdrawal and any other answer give no yes.
pub yes_decided :
    (before : List Event) (e : Event) (q : ℕ)
    → says_yes q (step (run (new false) before) e).1 ≡ true
    → (t : Bytes) × (e ≡ decides t true) × (any (is_ask q t) before ≡ true)
unfolding new
yes_decided before e q y =
    step-yes before (run (new false) before) e q (run-unattended (new false) before)
      (run-AreAsked [] before (new false) (empty-AreAsked [] (new false) refl)) y

confirm-absent :
    (a : FileApproval) (offer : IncomingOffer) (q : ℕ) (s : TrySend) (t : Bytes)
    → (offer.transfer_id =? t) ≡ false
    → BTreeMap.get t a.pending ≡ none
    → BTreeMap.get t (confirm_receive a offer q s).0.pending ≡ none
unfolding confirm_receive ask
confirm-absent a offer q sent t o h = ground (
  arith,
  get-insert offer.transfer_id t (record { peer = offer.peer; reply = q }) a.pending,
  =?_iff offer.transfer_id t,
  =?_iff t offer.transfer_id,
)
confirm-absent a offer q full t o h = ground arith
confirm-absent a offer q closed t o h = ground arith

step-absent :
    (a : FileApproval) (e : Event) (t : Bytes)
    → asks_about t e ≡ false
    → BTreeMap.get t a.pending ≡ none
    → BTreeMap.get t (step a e).0.pending ≡ none
unfolding step attach detach decide withdraw BTreeMap.get
step-absent a attaches t o h = refl
step-absent a (detaches epoch) t o h = ground arith
step-absent a (asks offer q s) t o h = confirm-absent a offer q s t o h
step-absent a (decides t' accept) t o h = ground (arith, get-remove t' t a.pending)
step-absent a (withdraws t') t o h = ground (arith, get-remove t' t a.pending)

run-absent :
    (a : FileApproval) (es : List Event) (t : Bytes)
    → any (asks_about t) es ≡ false
    → BTreeMap.get t a.pending ≡ none
    → BTreeMap.get t (run a es).pending ≡ none
unfolding run
run-absent a [] t o h = h
run-absent a (e ∷ es) t o h =
    run-absent (step a e).0 es t (ground arith) (step-absent a e t (ground arith) h)

-- A transfer that was decided is decided: until it is asked about again, another decision on it finds
-- nothing and answers no question, whatever else happens.
pub decided_once :
    (a : FileApproval) (t : Bytes) (first second : Bool) (es : List Event)
    → any (asks_about t) es ≡ false
    → let later = run (step a (decides t first)).0 es in
      ((decide later t second).1 ≡ unknown) × ((decide later t second).2 ≡ [])
unfolding decide step
decided_once a t first second es o =
    let gone : BTreeMap.get t (without a t).pending ≡ none =
      get-remove t t a.pending ∙ rw (=?_refl t) refl in
    let absent = run-absent (without a t) es t o gone in
    (ap decision_on absent, ap (λ p. answer_to p second) absent)
