-- ===== src/Files/Manager/Reaper/Kept.antt =====
-- What the reaper (lib.rs) does to the records that are there already.
use anyflow.Prelude.{bytes_key}
use anyflow.Collections.BTreeMap.{values}
use anyflow.Files.Manager.{Manager, Env, fail_all}
use anyflow.Files.Manager.Reaper.{doomed, to_check, unauthorized, reap_once}
use anyflow.Files.Manager.Evolution.{Evolves, Evolves-trans, fail_all-Evolves}

pub reap_once-Evolves : (e : Env) (m : Manager) → Evolves m (reap_once e m).0
unfolding reap_once
reap_once-Evolves e m =
    let records = values m.transfers in
    let m' = (fail_all e (doomed e records) m).0 in
    let late = unauthorized e (to_check e records) in
    Evolves-trans m m' (fail_all e late m').0 (fail_all-Evolves e (doomed e records) m)
      (fail_all-Evolves e late m')
