-- ===== src/Session/Loop/Writer.antt =====
-- What one end writes, the other end's guard takes (session.rs, the writer's task of `run_session`).
use anyflow.Prelude.{
  ◌+◌, ◌^◌, ◌<◌, ◌≤◌, ◌≡◌, refl, ap, Bool, true, false, ◌&&◌, List, [], ◌∷◌, ◌++◌, any, all, map,
  length, ◌==◌, Bytes, bytes_key, ◌=?◌, =?_iff, is_ok, arith, Bool-cases, inl, inr, any-append,
}
use anyflow.Session.Wire.{Envelope}
use anyflow.Session.Handshake.{EnvelopeFactory}
use anyflow.Session.Replay
use anyflow.Session.Replay.{ReplayGuard}
use anyflow.Session.Replay.Window.{IsValid, is_in, distinct, admit-IsValid}
use anyflow.Session.Replay.History.{admit_iff, admit-order-in, sequence-of}
use anyflow.Session.Loop.{Draft, id_or, write_one, write_all}

-- The message id that a draft goes out with.
abbrev pub id_of : Draft → Bytes
id_of d = id_or d.request.message_id d.drawn

abbrev pub all_admitted : ReplayGuard → List Envelope → Bool
all_admitted g [] = true
all_admitted g (e ∷ es) = is_ok (Replay.admit g e).1 && all_admitted (Replay.admit g e).0 es

-- The ids are of the right length, all different, and none is among `recent`.
pub record AreFresh (recent : List Bytes) (ids : List Bytes) : Type 0 where
  pub whole : all (λ id. length id == 16) ids ≡ true
  pub different : distinct ids ≡ true
  pub unseen : any (λ id. is_in id recent) ids ≡ false

same-in : (x y : Bytes) (l : List Bytes) → (x =? y) ≡ true → is_in x l ≡ is_in y l
same-in x y l h = ap (λ z. is_in z l) ((=?_iff x y).0 h)

unseen-next :
    (id : Bytes) (recent later : List Bytes) (ids : List Bytes)
    → ((x : Bytes) → is_in x later ≡ true → is_in x (recent ++ id ∷ []) ≡ true)
    → is_in id ids ≡ false
    → any (λ x. is_in x recent) ids ≡ false
    → any (λ x. is_in x later) ids ≡ false
unseen-next id recent later [] within new old = refl
unseen-next id recent later (x ∷ xs) within new old = elim (Bool-cases (is_in x later)) [
  | inr out ↦ ground (arith, unseen-next id recent later xs within)
  | inl found ↦
      ground
        (arith, within x found, any-append (λ y. x =? y) recent (id ∷ []), =?_iff x id, =?_iff id x)
]

-- When the ids are fresh and the numbers stay below 2^64, the other end takes every frame that the
-- writer sends, in the order in which they go out, from any well-formed state of its guard that is
-- not ahead of the writer's numbers.
pub write_all-all_admitted :
    (f : EnvelopeFactory) (g : ReplayGuard) (ds : List Draft)
    → IsValid g
    → g.last_sequence ≤ f.sequence
    → f.sequence + length ds < 2 ^ 64
    → AreFresh g.order (map id_of ds)
    → all_admitted g (write_all f ds) ≡ true
unfolding write_all write_one
write_all-all_admitted f g [] v le room fresh = refl
write_all-all_admitted f g (d ∷ ds) v le room fresh =
    let env = (write_one f d).1 in
    let passes : is_ok (Replay.admit g env).1 ≡ true =
      (admit_iff g env v).1
        (ground (arith, fresh.whole), omega arith, ground (arith, fresh.unseen)) in
    rw passes (
      write_all-all_admitted (write_one f d).0 (Replay.admit g env).0 ds (admit-IsValid g env v)
        (omega (arith, sequence-of g env passes)) (omega arith)
        record {
          whole = ground (arith, fresh.whole);
          different = ground (arith, fresh.different);
          unseen =
              unseen-next (id_of d) g.order (Replay.admit g env).0.order (map id_of ds)
                (admit-order-in g env) (ground (arith, fresh.different))
                (ground (arith, fresh.unseen));
        })
