-- ===== src/Runtime/Renegotiate.antt =====
-- desktop/runtime/src/renegotiate.rs: asking a session to end so that a new grant takes effect.
pub mod Once
pub mod Examples
use anyflow.Prelude.{
  ℕ, Bool, true, false, not, Option, none, some, List, [], ◌∷◌, any, ◌==◌, if◌then◌else◌, Bytes,
  bytes_key, ◌=?◌,
}
use anyflow.Collections.BTreeMap
use anyflow.Collections.BTreeMap.{BTreeMap}

pub data Decision : Type 0 where
  withdrawn no_session already_negotiated already_requested reconnect : Decision

pub is_reconnect : Decision → Bool
is_reconnect reconnect = true
is_reconnect _ = false

pub record LiveSession : Type 0 where
  pub id : ℕ  -- u64
  pub negotiated : List Bytes

-- `requested == Some(session.id)`
abbrev pub names : Option ℕ → ℕ → Bool
names none id = false
names (some k) id = k == id

pub decide : Bool → Bytes → Option LiveSession → Option ℕ → Decision
decide granted capability none requested = if not granted then withdrawn else no_session
decide granted capability (some session) requested =
    if not granted
    then withdrawn
    else if any (λ c. c =? capability) session.negotiated
    then already_negotiated
    else if names requested session.id
    then already_requested
    else reconnect

-- A `HashMap`, of which only lookups are asked.
pub record Renegotiation : Type 0 where
  pub requested : BTreeMap Bytes ℕ

pub new : Renegotiation
new = record { requested = [] }

pub noted : Renegotiation → Bytes → Decision → Option LiveSession → Renegotiation
unfolding BTreeMap.insert
noted r peer reconnect (some session) = record {
  requested = BTreeMap.insert peer session.id r.requested;
}
noted r peer _ _ = r

pub on_grant_changed :
    Renegotiation → Bytes → Bytes → Bool → Option LiveSession → Renegotiation × Decision
unfolding decide noted BTreeMap.get
on_grant_changed r peer capability granted session =
    let decision = decide granted capability session (BTreeMap.get peer r.requested) in
    (noted r peer decision session, decision)

pub clear : Renegotiation → Bytes → Renegotiation
unfolding BTreeMap.remove
clear r peer = record { requested = BTreeMap.remove peer r.requested }

pub outstanding : Renegotiation → Bytes → Option ℕ
unfolding BTreeMap.get
outstanding r peer = BTreeMap.get peer r.requested

pub data Event : Type 0 where
  grant_changes : Bytes → Bytes → Bool → Option LiveSession → Event
  clears : Bytes → Event

pub step : Renegotiation → Event → Renegotiation × Option Decision
unfolding on_grant_changed clear
step r (grant_changes peer capability granted session) =
    let (r', decision) = on_grant_changed r peer capability granted session in (r', some decision)
step r (clears peer) = (clear r peer, none)
