-- ===== src/Notifications/Roles/Local/Examples.antt =====
-- A server that comes, reports dismissals, and goes (roles.rs).
use anyflow.Prelude.{Bool, true, false, List, [], ◌∷◌, ◌++◌, arith}
use anyflow.Notifications.Roles.{no_roles}
use anyflow.Notifications.Roles.Local.{new}
use anyflow.Notifications.Roles.Local.Heard.{talk, IsHeard, talk-IsHeard}

abbrev changes : List (Bool × Bool)
changes = (true, false) ∷ (true, false) ∷ (true, true) ∷ []

talk-IsHeard_example : IsHeard (talk new no_roles (changes ++ (false, true) ∷ [])).1 false true
talk-IsHeard_example = talk-IsHeard changes false true (omega arith)
