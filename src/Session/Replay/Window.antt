-- ===== src/Session/Replay/Window.antt =====
-- What the guard of session.rs lets through.
use anyflow.Prelude.{
  ◌+◌, ◌≤◌, ◌<◌, ◌≡◌, refl, Bool, true, false, not, ◌&&◌, List, [], ◌∷◌, ◌++◌, length,
  length-append, any, any-append, leb, ltb, ◌==◌, Bytes, ◌=?◌, =?_iff, bytes_key, Result, ok, err,
  arith, Bool-cases, inl, inr,
}
use anyflow.Collections.BTreeMap
use anyflow.Collections.BTreeMap.{BTreeMap, get-insert, get-remove}
use anyflow.Session.Wire.{Envelope}
use anyflow.Session.Replay.{
  Error, ReplayGuard, dedup_window, new, pop_old, admit, bad_message_id, duplicate_message_id,
  sequence_did_not_increase,
}

abbrev pub is_in : Bytes → List Bytes → Bool
is_in id ids = any (λ x. id =? x) ids

abbrev pub distinct : List Bytes → Bool
distinct [] = true
distinct (x ∷ xs) = not (is_in x xs) && distinct xs

-- The set and the queue hold the same ids, each once, and no more than the window.
pub record IsValid (g : ReplayGuard) : Type 0 where
  pub agree : (id : Bytes) → BTreeMap.contains_key id g.seen ≡ is_in id g.order
  pub once : distinct g.order ≡ true
  pub bounded : length g.order ≤ dedup_window

pub new-IsValid : IsValid new
unfolding new BTreeMap.contains_key
new-IsValid = record { agree = λ id. refl; once = refl; bounded = omega arith }

distinct-push :
    (id : Bytes) (ids : List Bytes)
    → distinct ids ≡ true
    → is_in id ids ≡ false
    → distinct (ids ++ id ∷ []) ≡ true
distinct-push id [] d n = refl
distinct-push id (x ∷ xs) d n =
    ground
      (arith, distinct-push id xs, any-append (λ y. x =? y) xs (id ∷ []), =?_iff id x, =?_iff x id)

pop-IsValid :
    (g : ReplayGuard) (x : Bytes) (rest : List Bytes)
    → ((id : Bytes) → BTreeMap.contains_key id g.seen ≡ is_in id (x ∷ rest))
    → distinct (x ∷ rest) ≡ true
    → length (x ∷ rest) ≤ dedup_window + 1
    → IsValid (pop_old g (x ∷ rest))
unfolding BTreeMap.contains_key
pop-IsValid g x rest a d b = elim (Bool-cases (ltb dedup_window (length (x ∷ rest)))) [
  | inl over ↦ rw over (record {
    agree = λ id. ground (arith, a id, get-remove x id g.seen, =?_iff id x);
    once = ground arith;
    bounded = omega arith;
  })
  | inr fits ↦ rw fits (record { agree = a; once = d; bounded = ground arith })
]

pop-push_IsValid :
    (g : ReplayGuard) (q : List Bytes) (id : Bytes)
    → ((j : Bytes) → BTreeMap.contains_key j g.seen ≡ is_in j (q ++ id ∷ []))
    → distinct (q ++ id ∷ []) ≡ true
    → length (q ++ id ∷ []) ≤ dedup_window + 1
    → IsValid (pop_old g (q ++ id ∷ []))
pop-push_IsValid g [] id a d b = pop-IsValid g id [] a d b
pop-push_IsValid g (x ∷ q) id a d b = pop-IsValid g x (q ++ id ∷ []) a d b

contains-push :
    (g : ReplayGuard) (id j : Bytes)
    → IsValid g
    → BTreeMap.contains_key j (BTreeMap.insert id tt g.seen) ≡ is_in j (g.order ++ id ∷ [])
unfolding BTreeMap.contains_key
contains-push g id j v =
    ground (arith, get-insert id j tt g.seen, v.agree j, any-append (λ x. j =? x) g.order (id ∷ []))

abbrev pub grown : ReplayGuard → Envelope → ReplayGuard
grown g e = record {
  last_sequence = e.sequence;
  seen = BTreeMap.insert e.message_id tt g.seen;
  order = g.order;
}

-- Refused, or let through in the one way there is.
pub data Admitted (g : ReplayGuard) (e : Envelope) (r : ReplayGuard × Result (Unit {0}) Error)
    : Type 0 where
  refused : (x : Error) → r ≡ (g, err x) → Admitted g e r
  passed :
      length e.message_id ≡ 16
      → g.last_sequence < e.sequence
      → BTreeMap.contains_key e.message_id g.seen ≡ false
      → r ≡ (pop_old (grown g e) (g.order ++ e.message_id ∷ []), ok tt)
      → Admitted g e r

pub admit-Admitted : (g : ReplayGuard) (e : Envelope) → Admitted g e (admit g e)
unfolding admit
admit-Admitted g e = elim (Bool-cases (length e.message_id == 16)) [
  | inr w ↦ refused bad_message_id (rw (w, admit))
  | inl w ↦ elim (Bool-cases (leb e.sequence g.last_sequence)) [
    | inl s ↦ refused sequence_did_not_increase (rw (w, admit, s))
    | inr s ↦ elim (Bool-cases (BTreeMap.contains_key e.message_id g.seen)) [
      | inl d ↦ refused duplicate_message_id (rw (w, admit, s, d))
      | inr d ↦ passed (ground arith) (ground arith) d (rw (w, admit, s, d))
    ]
  ]
]

Admitted-IsValid :
    (g : ReplayGuard) (e : Envelope) {r : ReplayGuard × Result (Unit {0}) Error}
    → IsValid g
    → Admitted g e r
    → IsValid r.0
Admitted-IsValid g e v (refused x p) = rw p v
Admitted-IsValid g e v (passed w s d p) = rw p (
    pop-push_IsValid (grown g e) g.order e.message_id (λ j. contains-push g e.message_id j v)
      (distinct-push e.message_id g.order v.once (ground (arith, v.agree e.message_id)))
      (omega (arith, length-append g.order (e.message_id ∷ []), v.bounded)))

-- Every envelope, let through or not, keeps the set and the queue of the guard in step: the same
-- ids, each once, at most 1024.
pub admit-IsValid : (g : ReplayGuard) (e : Envelope) → IsValid g → IsValid (admit g e).0
admit-IsValid g e v = Admitted-IsValid g e v (admit-Admitted g e)
