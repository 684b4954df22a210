-- ===== src/Releases/Status.antt =====
-- `ReleaseStatus` of src/releases.rs: its texts and its transition table.
pub mod Graph
pub mod Texts
use hostinger.Prelude.{ℕ, String, Bool, true, false, str_eq, if◌then◌else◌}
use hostinger.Exec.{Result, ok, err}
use hostinger.Health.{Message}

pub data ReleaseStatus : Type 0 where
  starting health_checking ready active draining stopped failed : ReleaseStatus

-- What the functions of src/releases.rs report, one constructor for each message.
pub data ReleaseError : Type 0 where
  database : String → ReleaseError
  unknown_status : String → ReleaseError
  release_not_found : ℕ → ReleaseError
  invalid_transition : ReleaseStatus → ReleaseStatus → ReleaseError
  stale_version : ℕ → ReleaseError
  cannot_activate : ReleaseStatus → ReleaseError
  router_failed : String → ReleaseError
  health_check_failed : Message → ReleaseError

unfoldable pub as_str : ReleaseStatus → String
as_str starting = "starting"
as_str health_checking = "health_checking"
as_str ready = "ready"
as_str active = "active"
as_str draining = "draining"
as_str stopped = "stopped"
as_str failed = "failed"

unfoldable pub parse : String → Result ReleaseError ReleaseStatus
parse s =
    if str_eq s "starting"
    then ok starting
    else if str_eq s "health_checking"
    then ok health_checking
    else if str_eq s "ready"
    then ok ready
    else if str_eq s "active"
    then ok active
    else if str_eq s "draining"
    then ok draining
    else if str_eq s "stopped"
    then ok stopped
    else if str_eq s "failed"
    then ok failed
    else err (unknown_status s)

-- `matches!((self, target), ...)`
unfoldable pub can_transition_to : ReleaseStatus → ReleaseStatus → Bool
can_transition_to starting health_checking = true
can_transition_to starting failed = true
can_transition_to health_checking ready = true
can_transition_to health_checking failed = true
can_transition_to ready active = true
can_transition_to ready stopped = true
can_transition_to ready failed = true
can_transition_to active draining = true
can_transition_to active stopped = true
can_transition_to active failed = true
can_transition_to draining stopped = true
can_transition_to draining failed = true
can_transition_to _ _ = false
