-- ===== src/Notifications/Roles/Announcements.antt =====
-- A run of role announcements, in any order of arrival.
use anyflow.Prelude.{
  ℕ, ◌≤◌, ◌<◌, ◌≡◌, Bool, true, false, ◌||◌, none, some, List, [], ◌∷◌, any, arith, is_ok, ◌=?◌,
  Option-cases, inl, inr,
}
use anyflow.Collections.BTreeMap
use anyflow.Collections.BTreeMap.{BTreeMap, get-insert}
use anyflow.Notifications.Wire.{NotificationRoles}
use anyflow.Notifications.Roles.{Role, role_key, RoleSet, from_wire, PeerRoles, has, collect, apply}

-- A wire number that stands for `role`.
abbrev pub is_role : Role → ℕ → Bool
is_role role value = elim (from_wire value) [ none ↦ false | some r ↦ role =? r ]

contains-collect :
    (role : Role) (roles : RoleSet) (rs : List ℕ)
    → BTreeMap.contains_key role (collect roles rs)
      ≡ (BTreeMap.contains_key role roles || any (is_role role) rs)
unfolding collect BTreeMap.contains_key
contains-collect role roles [] = ground arith
contains-collect role roles (r ∷ rs) = elim (Option-cases (from_wire r)) [
  | inl e ↦ ground (arith, contains-collect role roles rs)
  | inr (q, e) ↦
      ground
        (arith, contains-collect role (BTreeMap.insert q tt roles) rs, get-insert q role tt roles)
]

-- An announcement is taken exactly when its epoch is past the last one. The peer then has the roles
-- that it lists and the receiver knows, and no others; otherwise nothing changes.
pub apply_lem :
    (p : PeerRoles) (a : NotificationRoles)
    → (p.epoch < a.epoch
        → (is_ok (apply p a).1 ≡ true)
          × ((apply p a).0.epoch ≡ a.epoch)
          × ((role : Role) → has role (apply p a).0 ≡ any (is_role role) a.roles))
      × (a.epoch ≤ p.epoch → (is_ok (apply p a).1 ≡ false) × ((apply p a).0 ≡ p))
unfolding apply has BTreeMap.contains_key
apply_lem p a = (
  λ h. (ground arith, ground arith, λ role. ground (arith, contains-collect role [] a.roles)),
  λ h. (ground arith, ground arith),
)

unfoldable pub run : PeerRoles → List NotificationRoles → PeerRoles
run p [] = p
run p (a ∷ as') = run (apply p a).0 as'

apply-epoch-le : (p : PeerRoles) (a : NotificationRoles) → p.epoch ≤ (apply p a).0.epoch
unfolding apply
apply-epoch-le p a = ground arith

run-epoch-le : (p : PeerRoles) (as' : List NotificationRoles) → p.epoch ≤ (run p as').epoch
unfolding run
run-epoch-le p [] = omega arith
run-epoch-le p (a ∷ as') = omega (arith, apply-epoch-le p a, run-epoch-le (apply p a).0 as')

taken-epoch :
    (p : PeerRoles) (a : NotificationRoles)
    → is_ok (apply p a).1 ≡ true
    → (apply p a).0.epoch ≡ a.epoch
unfolding apply
taken-epoch p a h = ground arith

-- An announcement that was taken is refused when it comes again, however many others came between.
pub replay_refused :
    (p : PeerRoles) (a : NotificationRoles) (between : List NotificationRoles)
    → is_ok (apply p a).1 ≡ true
    → is_ok (apply (run (apply p a).0 between) a).1 ≡ false
replay_refused p a between h =
    ((apply_lem _ a).1 (omega (arith, taken-epoch p a h, run-epoch-le (apply p a).0 between))).0
