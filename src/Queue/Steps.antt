-- ===== src/Queue/Steps.antt =====
-- Each UPDATE of `build_jobs` in src/queue.rs as steps of the jobs that it meets.
use hostinger.Prelude.{
  ℕ, String, ◌≡◌, refl, sym, ap, ◌⊎◌, inl, inr, Bool, true, false, ◌&&◌, Option, none, some, arith,
}
use hostinger.Prelude.Words.{below, below-ceiling}
use hostinger.Queue.Status.{
  JobStatus, queued, running, completed, failed, cancelled, is_running, is_claimable,
  is_cancellable,
}
use hostinger.Queue.Tables.{
  BuildJobRecord, owned_by, can_claim, claimed, held_by, renewed, released, released_with,
  leased_to, can_cancel, runs,
}
use hostinger.Queue.History.{
  IsSound, is_some, claim_step, renew_step, release_step, error_step, withdraw_step, Steps,
}

&&-both : (a b : Bool) → (a && b) ≡ true → (a ≡ true) × (b ≡ true)
&&-both true true h = (refl, refl)
&&-both true false h = cc
&&-both false b h = cc

running_of : (s : JobStatus) → is_running s ≡ true → s ≡ running
running_of running h = refl
running_of queued h = cc
running_of completed h = cc
running_of failed h = cc
running_of cancelled h = cc

owner_is_some : (worker : String) (o : Option String) → owned_by worker o ≡ true → is_some o ≡ true
owner_is_some worker none h = cc
owner_is_some worker (some w) h = refl

cancellable_cases : (s : JobStatus) → is_cancellable s ≡ true → (s ≡ queued) ⊎ (s ≡ running)
cancellable_cases queued h = inl refl
cancellable_cases running h = inr refl
cancellable_cases completed h = cc
cancellable_cases failed h = cc
cancellable_cases cancelled h = cc

pub claim-Steps :
    (i expires now : ℕ) (worker : String) → Steps (can_claim i) (claimed worker expires now)
claim-Steps i expires now worker j met sound =
    let room : below j.attempt j.max_attempts ≡ true = ground arith in
    let claimable : is_claimable j.status ≡ true = ground arith in
    (
      (omega (arith, below-ceiling j.attempt j.max_attempts room), refl, refl),
      claim_step worker expires now claimable room,
    )

pub runs_when_held :
    (i : ℕ) (worker : String) (j : BuildJobRecord) → held_by i worker j ≡ true → j.status ≡ running
runs_when_held i worker j met = running_of j.status (ground arith)

pub renew-Steps :
    (i expires now : ℕ) (worker : String) → Steps (held_by i worker) (renewed expires now)
renew-Steps i expires now worker j met sound =
    let active = runs_when_held i worker j met in
    ((sound.0, sound.1, sym (ap is_running active)), renew_step expires now active)

pub ack-Steps : (i now : ℕ) (worker : String) → Steps (held_by i worker) (released completed now)
ack-Steps i now worker j met sound =
    ((sound.0, refl, refl), release_step completed now (runs_when_held i worker j met) refl)

-- Only a running job has an owner.
runs_when_leased :
    (i : ℕ) (worker : String) (j : BuildJobRecord)
    → IsSound j
    → leased_to i worker j ≡ true
    → j.status ≡ running
runs_when_leased i worker j sound met =
    let owned : owned_by worker j.lease_owner ≡ true = ground arith in
    running_of j.status (ground (arith, sound.1, owner_is_some worker j.lease_owner owned))

pub fail-Steps :
    (i now : ℕ) (worker error : String) (s : JobStatus)
    → (s ≡ queued) ⊎ (s ≡ failed)
    → Steps (leased_to i worker) (released_with s error now)
fail-Steps i now worker error s which j met sound = (
  (sound.0, ended s which, ended s which),
  error_step s error now (runs_when_leased i worker j sound met) which,
)
  where
    ended : (s : JobStatus) → (s ≡ queued) ⊎ (s ≡ failed) → false ≡ is_running s
    ended s (inl e) = ap is_running (sym e)
    ended s (inr e) = ap is_running (sym e)

pub cancel-Steps : (i now : ℕ) → Steps (can_cancel i) (released cancelled now)
cancel-Steps i now j met sound = elim (cancellable_cases j.status (ground arith)) [
  | inl waiting ↦ ((sound.0, refl, refl), withdraw_step now waiting)
  | inr active ↦ ((sound.0, refl, refl), release_step cancelled now active refl)
]

runs_when_met : (i : ℕ) (j : BuildJobRecord) → runs i j ≡ true → j.status ≡ running
runs_when_met i j met = running_of j.status (ground arith)

pub requeue-Steps : (i now : ℕ) → Steps (runs i) (released queued now)
requeue-Steps i now j met sound =
    ((sound.0, refl, refl), release_step queued now (runs_when_met i j met) refl)

pub exhaust-Steps : (i now : ℕ) (error : String) → Steps (runs i) (released_with failed error now)
exhaust-Steps i now error j met sound =
    ((sound.0, refl, refl), error_step failed error now (runs_when_met i j met) (inr refl))
