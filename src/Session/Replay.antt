-- ===== src/Session/Replay.antt =====
-- desktop/core/src/session.rs, `ReplayGuard`: sequence numbers rise, message ids do not repeat
-- within a window of 1024.
pub mod Window
pub mod History
pub mod Examples
use anyflow.Prelude.{
  ℕ, ◌+◌, Bool, true, false, not, Option, none, some, List, [], ◌∷◌, ◌++◌, length, leb, ltb, ◌==◌,
  if◌then◌else◌, Bytes, ◌=?◌, bytes_key, Result, ok, err,
}
use anyflow.Session.Wire.{Envelope}
use anyflow.Collections.BTreeMap
use anyflow.Collections.BTreeMap.{BTreeMap}

pub data Error : Type 0 where
  bad_message_id sequence_did_not_increase duplicate_message_id : Error

-- `seen` is a `HashSet`, of which the guard only asks membership: kept as a set in key order.
pub record ReplayGuard : Type 0 where
  pub last_sequence : ℕ
  pub seen : BTreeMap Bytes (Unit {0})
  pub order : List Bytes

abbrev pub dedup_window : ℕ
dedup_window = 1024

unfoldable pub new : ReplayGuard
new = record { last_sequence = 0; seen = []; order = [] }

-- `if self.order.len() > DEDUP_WINDOW { pop_front … }`
abbrev pop_old : ReplayGuard → List Bytes → ReplayGuard
pop_old g [] = g
pop_old g (old ∷ rest) =
    if ltb dedup_window (length (old ∷ rest))
    then record g { seen = BTreeMap.remove old g.seen; order = rest }
    else record g { order = old ∷ rest }

unfoldable pub admit : ReplayGuard → Envelope → ReplayGuard × Result (Unit {0}) Error
unfolding BTreeMap.contains_key BTreeMap.insert BTreeMap.remove
admit g e =
    if not (length e.message_id == 16)
    then (g, err bad_message_id)
    else if leb e.sequence g.last_sequence
    then (g, err sequence_did_not_increase)
    else if BTreeMap.contains_key e.message_id g.seen
    then (g, err duplicate_message_id)
    else (
      pop_old
          (record {
            last_sequence = e.sequence;
            seen = BTreeMap.insert e.message_id tt g.seen;
            order = g.order;
          })
          (g.order ++ e.message_id ∷ []),
      ok tt,
    )
