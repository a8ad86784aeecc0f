-- ===== src/Files/Transfer/Lifecycle.antt =====
-- How a transfer goes from state to state (transfer.rs, `can_transition_to`).
use anyflow.Prelude.{
  ℕ, suc, ◌≤◌, ◌≡◌, ◌≢◌, ap, sym, ◌∙◌, refl, Bool, true, false, ◌||◌, List, [], ◌∷◌, length, any,
  ◌⊎◌, inl, inr, arith,
}
use anyflow.Files.Transfer.{
  FailureReason, reason_to_proto, reason_from_proto, TransferState, offered, waiting_accept,
  transferring, verifying, completed, is_terminal, can_transition_to,
}

-- A life of a transfer: each state in turn, by permitted transitions.
pub data Life : TransferState → List TransferState → TransferState → Type 0 where
  rests : (s : TransferState) → Life s [] s
  goes :
      (s : TransferState) {next last : TransferState} {rest : List TransferState}
      → can_transition_to s next ≡ true
      → Life next rest last
      → Life s (next ∷ rest) last

abbrev rank : TransferState → ℕ
rank offered = 3
rank waiting_accept = 3
rank transferring = 2
rank verifying = 1
rank _ = 0

descends : (s next : TransferState) → can_transition_to s next ≡ true → suc (rank next) ≤ rank s
unfolding can_transition_to is_terminal
descends s next h = ground arith

length-Life :
    {s last : TransferState} {visited : List TransferState}
    → Life s visited last
    → length visited ≤ rank s
length-Life (rests s) = omega arith
length-Life (goes s {next} {last} {rest} h l) = omega (arith, descends s next h, length-Life l)

rank-le : (s : TransferState) → rank s ≤ 3
rank-le s = ground arith

-- A transfer passes through at most three states after its first, so every life ends; none follows a
-- state that is terminal.
pub Life-bounded :
    (s last : TransferState) (visited : List TransferState)
    → Life s visited last
    → (length visited ≤ 3) × (is_terminal s ≡ true → visited ≡ [])
unfolding is_terminal
Life-bounded s last visited l =
    (omega (arith, length-Life l, rank-le s), λ t. ground (arith, length-Life l))

abbrev pub is_transferring : TransferState → Bool
is_transferring transferring = true
is_transferring _ = false

terminal-last :
    {s last : TransferState} {visited : List TransferState}
    → Life s visited last
    → rank s ≡ 0
    → last ≡ s
terminal-last (rests s) z = refl
terminal-last (goes s {next} {last} {rest} h l) z = absurd (omega (arith, descends s next h))

first-step :
    (s next : TransferState)
    → (s ≡ offered) ⊎ (s ≡ waiting_accept)
    → can_transition_to s next ≡ true
    → (next ≡ transferring) ⊎ ((rank next ≡ 0) × (next ≢ completed))
unfolding can_transition_to is_terminal
first-step s next start h = ground arith

first-completed :
    {s last : TransferState} {visited : List TransferState}
    → Life s visited last
    → (s ≡ offered) ⊎ (s ≡ waiting_accept)
    → last ≡ completed
    → any is_transferring visited ≡ true
first-completed (rests s) start e = absurd (ground arith)
first-completed (goes s {next} {last} {rest} h l) start e = elim (first-step s next start h) [
  | inl t ↦ ap (λ x. is_transferring x || any is_transferring rest) t
  | inr (z, other) ↦ absurd (other (sym (terminal-last l z) ∙ e))
]

-- A transfer that was only offered, or waits to be accepted, completes only by way of transferring.
pub completed_transferred :
    (s : TransferState) (visited : List TransferState)
    → Life s visited completed
    → (s ≡ offered) ⊎ (s ≡ waiting_accept)
    → any is_transferring visited ≡ true
completed_transferred s visited l start = first-completed l start refl

-- A reason comes back from the wire as it was sent.
pub reason_from_proto-reason_to_proto :
    (r : FailureReason) → reason_from_proto (reason_to_proto r) ≡ r
unfolding reason_from_proto reason_to_proto
reason_from_proto-reason_to_proto r = ground arith
