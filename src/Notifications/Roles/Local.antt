-- ===== src/Notifications/Roles/Local.antt =====
-- desktop/capabilities/notifications/src/roles.rs: what this device announces that it can do.
pub mod Heard
pub mod Examples
use anyflow.Prelude.{
  ℕ, ◌+◌, ◌-◌, ◌^◌, Bool, true, false, not, ◌&&◌, Option, none, some, List, [], ◌∷◌, map, length,
  ltb, if◌then◌else◌, saturating_add, ◌=?◌,
}
use anyflow.Collections.BTreeMap
use anyflow.Notifications.Wire.{NotificationRoles}
use anyflow.Notifications.Roles.{
  Role, source, sink, dismiss_target, dismiss_reporter, role_key, RoleSet,
}

pub record LocalRoles : Type 0 where
  pub announced : Option RoleSet
  pub epoch : ℕ  -- u32

unfoldable pub new : LocalRoles
new = record { announced = none; epoch = 0 }

pub count : LocalRoles → ℕ
count l = elim l.announced [ none ↦ 0 | some r ↦ length r ]

pub has_announced : Role → LocalRoles → Bool
unfolding BTreeMap.contains_key
has_announced role l = elim l.announced [ none ↦ false | some r ↦ BTreeMap.contains_key role r ]

-- `reset`, when a session attaches, whatever was before.
pub reset : LocalRoles → LocalRoles
unfolding new
reset l = record l { announced = none; epoch = 0 }

unfoldable pub desired : Bool → Bool → RoleSet
unfolding BTreeMap.insert
desired server_available dismiss_reporting =
    if not server_available
    then []
    else let roles : RoleSet = BTreeMap.insert sink tt [] in
      if dismiss_reporting then BTreeMap.insert dismiss_reporter tt roles else roles

abbrev pub to_wire : Role → ℕ
to_wire source = 1
to_wire sink = 2
to_wire dismiss_target = 3
to_wire dismiss_reporter = 4

-- Equality of two `BTreeSet`s.
unfoldable pub same_roles : RoleSet → RoleSet → Bool
same_roles [] [] = true
same_roles [] (q ∷ qs) = false
same_roles (p ∷ ps) [] = false
same_roles ((r, x) ∷ ps) ((q, y) ∷ qs) = r =? q && same_roles ps qs

unfoldable pub is_announced : Option RoleSet → RoleSet → Bool
unfolding same_roles
is_announced none roles = false
is_announced (some r) roles = same_roles r roles

abbrev pub wire_roles : RoleSet → List ℕ
wire_roles roles = map (λ (x : Role × Unit {0}). to_wire x.0) roles

unfoldable pub announce : LocalRoles → Bool → Bool → LocalRoles × Option NotificationRoles
unfolding desired is_announced
announce l server_available dismiss_reporting =
    let roles = desired server_available dismiss_reporting in
    if is_announced l.announced roles
    then (l, none)
    else let epoch : ℕ = saturating_add 32 l.epoch 1 in
      (
        record { announced = some roles; epoch = epoch },
        some record { roles = wire_roles roles; epoch = epoch },
      )
