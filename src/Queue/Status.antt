-- ===== src/Queue/Status.antt =====
-- `JobStatus` of src/queue.rs and its texts.
use hostinger.Prelude.{
  String, Bool, true, false, ◌≡◌, refl, ap, ◌∙◌, ◌↔◌, arith, str_eq, str_append, eq_iff,
  if◌then◌else◌,
}
use hostinger.Exec.{Result, ok, err}

pub data JobStatus : Type 0 where
  queued running completed failed cancelled : JobStatus

unfoldable pub as_str : JobStatus → String
as_str queued = "queued"
as_str running = "running"
as_str completed = "completed"
as_str failed = "failed"
as_str cancelled = "cancelled"

unfoldable pub from_str : String → Result String JobStatus
from_str s =
    if str_eq s "queued"
    then ok queued
    else if str_eq s "running"
    then ok running
    else if str_eq s "completed"
    then ok completed
    else if str_eq s "failed"
    then ok failed
    else if str_eq s "cancelled"
    then ok cancelled
    else err (str_append "invalid job status: " s)

abbrev pub is_running : JobStatus → Bool
is_running running = true
is_running _ = false

-- status IN ('queued', 'failed')
abbrev pub is_claimable : JobStatus → Bool
is_claimable queued = true
is_claimable failed = true
is_claimable _ = false

-- status IN ('queued', 'running')
abbrev pub is_cancellable : JobStatus → Bool
is_cancellable queued = true
is_cancellable running = true
is_cancellable _ = false

job_status_only : (t : String) (s : JobStatus) → from_str t ≡ ok s → t ≡ as_str s
unfolding from_str as_str
job_status_only t s h = ground (
  arith,
  eq_iff t "queued",
  eq_iff t "running",
  eq_iff t "completed",
  eq_iff t "failed",
  eq_iff t "cancelled",
)

from_str-as_str : (s : JobStatus) → from_str (as_str s) ≡ ok s
unfolding from_str as_str
from_str-as_str queued = refl
from_str-as_str _ = refl

-- A text is read as a job's status exactly if it is the text that is written for that status.
pub job_status_exact : (t : String) (s : JobStatus) → (from_str t ≡ ok s) ↔ (t ≡ as_str s)
job_status_exact t s = (job_status_only t s, λ e. ap from_str e ∙ from_str-as_str s)
