-- ===== src/Runtime/Renegotiate/Examples.antt =====
-- Two grants in one burst (renegotiate.rs).
use anyflow.Prelude.{◌≤◌, ◌≡◌, refl, true, some, List, [], ◌∷◌, cmp_bytes}
use anyflow.Collections.BTreeMap
use anyflow.Runtime.Renegotiate.{LiveSession, new, Event, grant_changes, decide, is_reconnect, step}
use anyflow.Runtime.Renegotiate.Once.{requests, requests-at_most_once}

abbrev session : LiveSession
session = record { id = 4; negotiated = [] }

abbrev burst : List Event
burst =
    grant_changes (1 ∷ []) (b'n' ∷ []) true (some session)
    ∷ grant_changes (1 ∷ []) (b'f' ∷ []) true (some session)
    ∷ []

tests : requests (1 ∷ []) 4 new burst ≡ 1
unfolding requests new step decide is_reconnect BTreeMap.get BTreeMap.insert cmp_bytes
tests = refl

requests-at_most_once_example : requests (1 ∷ []) 4 new burst ≤ 1
unfolding cmp_bytes
requests-at_most_once_example = requests-at_most_once burst new (1 ∷ []) 4 refl
