-- ===== src/Session/Handshake/Outcomes.antt =====
-- What holds of every session that a piece of the handshake returns, from what holds of its parts.
use anyflow.Prelude.{
  ◌≡◌, refl, subst, [], Bool, true, false, none, some, List, ◌∷◌, if◌then◌else◌, Result, ok, err,
}
use anyflow.Session.Wire.{Body, Envelope}
use anyflow.Session.Replay
use anyflow.Session.Replay.{ReplayGuard}
use anyflow.Session.Handshake.{
  Outcome, HostCall, Error, Violation, Read, fails, returns, after_sending, after_calling, try,
  read, admit,
}

-- When it returns, what it returns and what it has called are related so.
pub record Ensures {A : Type 0} (o : Outcome A) (P : List HostCall → A → Type 0) : Type 0 where
  pub holds : (a : A) → o.result ≡ ok a → P o.calls a

ok-injective : {A : Type 0} (x y : A) (r : Result A Error) → r ≡ ok x → r ≡ ok y → x ≡ y
ok-injective x y r e f = cc

module _ {A : Type 0} {P : List HostCall → A → Type 0} where
  pub fails-Ensures : (e : Error) → Ensures (fails e) P
  fails-Ensures e = record { holds = λ a h. cc }

  pub returns-Ensures : (a : A) → P [] a → Ensures (returns a) P
  returns-Ensures a p = record { holds = λ b h. subst (P []) (ok-injective a b (ok a) refl h) p }

  pub after_sending-Ensures :
      (b : Body) (o : Outcome A) → Ensures o P → Ensures (after_sending b o) P
  after_sending-Ensures b o h = record { holds = h.holds }

  pub after_calling-Ensures :
      (c : HostCall) (o : Outcome A)
      → Ensures o (λ cs a. P (c ∷ cs) a)
      → Ensures (after_calling c o) P
  after_calling-Ensures c o h = record { holds = h.holds }

  pub try-Ensures :
      {B : Type 0} (r : Result B Error) (next : B → Outcome A)
      → ((b : B) → r ≡ ok b → Ensures (next b) P)
      → Ensures (try r next) P
  try-Ensures (ok b) next h = h b refl
  try-Ensures (err e) next h = fails-Ensures e

  pub read-Ensures :
      (r : Read) (v : Violation) (next : Envelope → Outcome A)
      → ((env : Envelope) → r ≡ some (ok env) → Ensures (next env) P)
      → Ensures (read r v next) P
  read-Ensures none v next h = fails-Ensures (Error.protocol v)
  read-Ensures (some (ok env)) v next h = h env refl
  read-Ensures (some (err e)) v next h = fails-Ensures e

  pub admit-Ensures :
      (g : ReplayGuard) (env : Envelope) (next : ReplayGuard → Outcome A)
      → ((g' : ReplayGuard) → Ensures (next g') P)
      → Ensures (admit g env next) P
  admit-Ensures g env next h =
      elim (Replay.admit g env).1
        as (λ r.
          Ensures
            (elim r [
              | ok u ↦ next (Replay.admit g env).0
              | err v ↦ fails (Error.protocol (Violation.replay v))
            ])
            P) [
              | ok u ↦ h (Replay.admit g env).0
              | err v ↦ fails-Ensures (Error.protocol (Violation.replay v))
            ]

  pub if-Ensures :
      (b : Bool) (x y : Outcome A)
      → (b ≡ true → Ensures x P)
      → (b ≡ false → Ensures y P)
      → Ensures (if b then x else y) P
  if-Ensures true x y h k = h refl
  if-Ensures false x y h k = k refl
