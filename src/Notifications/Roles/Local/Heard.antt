-- ===== src/Notifications/Roles/Local/Heard.antt =====
-- What the peer makes of the announcements (roles.rs against core/src/notifications.rs): this
-- device's `announce` and the receiver's `apply` in one.
use anyflow.Prelude.{
  ℕ, ◌+◌, ◌^◌, ◌≤◌, ◌<◌, ◌≡◌, refl, ap, ◌∙◌, Bool, true, false, ◌&&◌, Option, none, some, List, [],
  ◌∷◌, ◌++◌, any, length, saturating_add, =?_iff, arith, Bool-cases, inl, inr,
}
use anyflow.Collections.BTreeMap
use anyflow.Notifications.Wire.{NotificationRoles}
use anyflow.Notifications.Roles.{
  Role, source, sink, dismiss_target, dismiss_reporter, role_key, RoleSet, PeerRoles, has,
  from_wire, apply, no_roles,
}
use anyflow.Notifications.Roles.Announcements.{is_role, apply_lem}
use anyflow.Notifications.Roles.Local.{
  LocalRoles, new, desired, same_roles, is_announced, wire_roles, announce,
}

-- A message that is sent reaches the peer.
abbrev pub hear : PeerRoles → Option NotificationRoles → PeerRoles
hear p none = p
hear p (some a) = (apply p a).0

-- Whether the server is reachable and reports dismissals, each time the question comes up.
unfoldable pub talk : LocalRoles → PeerRoles → List (Bool × Bool) → LocalRoles × PeerRoles
talk l p [] = (l, p)
talk l p ((server, reports) ∷ rest) =
    let (l', message) = announce l server reports in talk l' (hear p message) rest

-- The peer stands at the last announcement.
record InStep (l : LocalRoles) (p : PeerRoles) : Type 0 where
  epochs : p.epoch ≡ l.epoch
  roles :
      (server reports : Bool)
      → is_announced l.announced (desired server reports) ≡ true
      → (role : Role) → has role p ≡ any (is_role role) (wire_roles (desired server reports))

same_roles-wire : (a b : RoleSet) → same_roles a b ≡ true → wire_roles a ≡ wire_roles b
unfolding same_roles
same_roles-wire [] [] h = refl
same_roles-wire [] (q ∷ qs) h = cc
same_roles-wire (p ∷ ps) [] h = cc
same_roles-wire ((r, x) ∷ ps) ((q, y) ∷ qs) h =
    let front : r ≡ q = (=?_iff r q).0 (ground arith) in
    let rest : wire_roles ps ≡ wire_roles qs = same_roles-wire ps qs (ground arith) in cc

announce-InStep :
    (l : LocalRoles) (p : PeerRoles) (server reports : Bool)
    → l.epoch + 1 < 2 ^ 32
    → InStep l p
    → let (l', message) = announce l server reports in
      InStep l' (hear p message)
      × ((role : Role)
          → has role (hear p message) ≡ any (is_role role) (wire_roles (desired server reports)))
      × (l'.epoch ≤ l.epoch + 1)
unfolding announce is_announced
announce-InStep l p server reports small s =
    elim (Bool-cases (is_announced l.announced (desired server reports))) [
      | inl same ↦ rw same (s, s.roles server reports same, omega arith)
      | inr changed ↦
          let epoch : ℕ = saturating_add 32 l.epoch 1 in
          let next : epoch ≡ l.epoch + 1 = ground arith in
          let a : NotificationRoles = record {
            roles = wire_roles (desired server reports);
            epoch = epoch;
          } in
          let (taken, at, heard) = (apply_lem p a).0 (omega (arith, s.epochs)) in
          rw changed (
            record {
              epochs = at;
              roles = λ server' reports' h role.
                  heard role
                  ∙ ap (λ w. any (is_role role) w)
                      (same_roles-wire (desired server reports) (desired server' reports') h);
            },
            heard,
            omega arith,
          )
    ]

talk-InStep :
    (l : LocalRoles) (p : PeerRoles) (inputs : List (Bool × Bool))
    → l.epoch + length inputs < 2 ^ 32
    → InStep l p
    → InStep (talk l p inputs).0 (talk l p inputs).1
      × ((talk l p inputs).0.epoch ≤ l.epoch + length inputs)
unfolding talk
talk-InStep l p [] small s = (s, omega arith)
talk-InStep l p ((server, reports) ∷ rest) small s =
    let (s', roles, grows) = announce-InStep l p server reports (omega arith) s in
    let (s'', grows') =
      talk-InStep (announce l server reports).0 (hear p (announce l server reports).1) rest
        (omega arith) s' in
    (s'', omega arith)

talk-last :
    (l : LocalRoles) (p : PeerRoles) (inputs : List (Bool × Bool)) (server reports : Bool)
    → talk l p (inputs ++ (server, reports) ∷ [])
      ≡ let t = talk l p inputs in
        let (l', message) = announce t.0 server reports in (l', hear t.1 message)
unfolding talk
talk-last l p [] server reports = refl
talk-last l p ((s, r) ∷ rest) server reports =
    talk-last (announce l s r).0 (hear p (announce l s r).1) rest server reports

-- The roles that the peer then takes this device to have.
pub IsHeard : PeerRoles → Bool → Bool → Type 0
IsHeard p server reports =
    (has sink p ≡ server)
    × (has dismiss_reporter p ≡ (server && reports))
    × (has source p ≡ false)
    × (has dismiss_target p ≡ false)

wire-IsHeard :
    (p : PeerRoles) (server reports : Bool)
    → ((role : Role) → has role p ≡ any (is_role role) (wire_roles (desired server reports)))
    → IsHeard p server reports
unfolding IsHeard desired from_wire BTreeMap.insert
wire-IsHeard p true true h = (h sink, h dismiss_reporter, h source, h dismiss_target)
wire-IsHeard p true false h = (h sink, h dismiss_reporter, h source, h dismiss_target)
wire-IsHeard p false true h = (h sink, h dismiss_reporter, h source, h dismiss_target)
wire-IsHeard p false false h = (h sink, h dismiss_reporter, h source, h dismiss_target)

-- However the notification server comes and goes in a connection, the peer that takes the
-- announcements as they come knows this device by what it can do at the last of them: a sink while
-- the server is there, one that reports dismissals while it can do that too, and nothing else.
pub talk-IsHeard :
    (inputs : List (Bool × Bool)) (server reports : Bool)
    → length inputs + 1 < 2 ^ 32
    → IsHeard (talk new no_roles (inputs ++ (server, reports) ∷ [])).1 server reports
unfolding new no_roles is_announced
talk-IsHeard inputs server reports small =
    let start : InStep new no_roles = record { epochs = refl; roles = λ s r h role. cc } in
    let (s, grows) = talk-InStep new no_roles inputs (omega arith) start in
    let t = talk new no_roles inputs in
    let (s', roles, more) = announce-InStep t.0 t.1 server reports (omega arith) s in
    rw (talk-last new no_roles inputs server reports)
      (wire-IsHeard (hear t.1 (announce t.0 server reports).1) server reports roles)
