-- ===== src/Notifications/Roles.antt =====
-- desktop/core/src/notifications.rs, "Roles": what a peer announced, with its epoch.
pub mod Announcements
pub mod Local
use anyflow.Prelude.{
  ℕ, ◌≡◌, refl, ◌↔◌, Bool, Option, none, some, List, [], ◌∷◌, Ordering, compare, Key, Result, ok,
  err, leb, if◌then◌else◌, ◌==◌, arith,
}
use anyflow.Collections.BTreeMap
use anyflow.Collections.BTreeMap.{BTreeMap}
use anyflow.Notifications.Wire.{NotificationRoles}

pub data Role : Type 0 where
  source sink dismiss_target dismiss_reporter : Role

abbrev pub rank : Role → ℕ
rank source = 0
rank sink = 1
rank dismiss_target = 2
rank dismiss_reporter = 3

-- The derived order is that of the declaration.
abbrev pub cmp_role : Role → Role → Ordering
cmp_role a b = compare (rank a) (rank b)

pub cmp_role_eq : (a b : Role) → (cmp_role a b ≡ Ordering.eq) ↔ (a ≡ b)
cmp_role_eq a b = ground arith

pub cmp_role_flip : (a b : Role) → (cmp_role a b ≡ Ordering.lt) ↔ (cmp_role b a ≡ Ordering.gt)
cmp_role_flip a b = ground arith

pub cmp_role_trans :
    (a b c : Role)
    → cmp_role a b ≡ Ordering.lt
    → cmp_role b c ≡ Ordering.lt
    → cmp_role a c ≡ Ordering.lt
cmp_role_trans a b c e f = ground arith

instance abbrev pub role_key : Key Role
role_key = record {
  cmp = cmp_role;
  cmp_eq = cmp_role_eq;
  cmp_flip = cmp_role_flip;
  cmp_trans = cmp_role_trans;
}

-- `BTreeSet<Role>`
abbrev pub RoleSet : Type 0
RoleSet = BTreeMap Role (Unit {0})

-- The numbers of the wire enum; any other number, and 0, is no role.
pub from_wire : ℕ → Option Role
from_wire value =
    if value == 1
    then some source
    else if value == 2
    then some sink
    else if value == 3
    then some dismiss_target
    else if value == 4
    then some dismiss_reporter
    else none

pub record PeerRoles : Type 0 where
  pub roles : RoleSet
  pub epoch : ℕ  -- u32

pub data RolesRejection : Type 0 where
  unset_epoch : RolesRejection
  stale_epoch : ℕ → ℕ → RolesRejection

pub no_roles : PeerRoles
no_roles = record { roles = []; epoch = 0 }

pub has : Role → PeerRoles → Bool
has role p = BTreeMap.contains_key role p.roles

pub is_empty : PeerRoles → Bool
is_empty p = elim p.roles [ [] ↦ Bool.true | r ∷ rs ↦ Bool.false ]

-- `filter_map(from_wire).collect()` of a set: one insertion after the other.
abbrev add_role : Option Role → RoleSet → RoleSet
add_role none roles = roles
add_role (some r) roles = BTreeMap.insert r tt roles

collect : RoleSet → List ℕ → RoleSet
unfolding from_wire
collect roles [] = roles
collect roles (r ∷ rs) = collect (add_role (from_wire r) roles) rs

-- A rejected announcement changes nothing.
pub apply : PeerRoles → NotificationRoles → PeerRoles × Result (Unit {0}) RolesRejection
unfolding collect
apply p a =
    if a.epoch == 0
    then (p, err unset_epoch)
    else if leb a.epoch p.epoch
    then (p, err (stale_epoch p.epoch a.epoch))
    else (record { roles = collect [] a.roles; epoch = a.epoch }, ok tt)
