-- ===== src/Runtime/Approval/Examples.antt =====
-- Instances of the theorems on approvals (approval.rs).
use anyflow.Prelude.{◌≡◌, refl, true, false, List, [], ◌∷◌, any, Bytes, cmp_bytes}
use anyflow.Collections.BTreeMap
use anyflow.Runtime.Approval.{
  IncomingOffer, sent, new, Event, attaches, detaches, asks, decides, step, run,
}
use anyflow.Runtime.Approval.Decided.{is_ask, says_yes, yes_decided}

abbrev offer : IncomingOffer
offer = record { transfer_id = 1 ∷ []; peer = 2 ∷ [] }

abbrev before : List Event
before = attaches ∷ asks offer 5 sent ∷ []

tests :
    (says_yes 5 (step (run (new false) before) (decides (1 ∷ []) true)).1 ≡ true)
    × (says_yes 5 (step (run (new false) before) (decides (2 ∷ []) true)).1 ≡ false)
    × (says_yes 5 (step (run (new false) before) (detaches 1)).1 ≡ false)
unfolding run step new BTreeMap.get BTreeMap.insert BTreeMap.remove cmp_bytes
tests = (refl, refl, refl)

yes_decided_example :
    (t : Bytes) × (◌≡◌ {A = Event} (decides (1 ∷ []) true) (decides t true))
    × (any (is_ask 5 t) before ≡ true)
unfolding run step new BTreeMap.get BTreeMap.insert BTreeMap.remove cmp_bytes
yes_decided_example = yes_decided before (decides (1 ∷ []) true) 5 refl
