-- ===== src/Queue/History.antt =====
-- How the rows of `build_jobs` may change: the life of a job as a step relation.
use hostinger.Prelude.{
  ℕ, ◌≤◌, String, ◌≡◌, refl, ◌∙◌, ◌⊎◌, inl, inr, Bool, true, false, Option, none, some, List, [],
  ◌∷◌, ◌++◌, arith, All, All-append, update, Bool-cases,
}
use hostinger.Prelude.Words.{below, ceiling}
use hostinger.Exec.Moves.{IsPreorder}
use hostinger.Queue.Status.{JobStatus, queued, running, failed, cancelled, is_running, is_claimable}
use hostinger.Queue.Tables.{BuildJobRecord, JobRow, claimed, renewed, released, released_with}
use hostinger.Queue.Base.{QueueState}

abbrev pub is_some : {A : Type 0} → Option A → Bool
is_some none = false
is_some (some a) = true

-- The attempts stay within their limit (a negative limit allows none), and exactly a running job has an owner and an expiry.
abbrev pub IsSound : BuildJobRecord → Type 0
IsSound j =
    (j.attempt ≤ ceiling j.max_attempts)
    × (is_some j.lease_owner ≡ is_running j.status)
    × (is_some j.lease_expires_at ≡ is_running j.status)

-- One change of a job. Only a queued or failed job with attempts left is claimed, which counts one
-- attempt; a lease is renewed or given up only while the job runs; only a queued job is withdrawn.
pub data JobStep : BuildJobRecord → BuildJobRecord → Type 0 where
  claim_step :
      {j : BuildJobRecord} (worker : String) (expires now : ℕ)
      → is_claimable j.status ≡ true
      → below j.attempt j.max_attempts ≡ true
      → JobStep j (claimed worker expires now j)
  renew_step :
      {j : BuildJobRecord} (expires now : ℕ)
      → j.status ≡ running
      → JobStep j (renewed expires now j)
  release_step :
      {j : BuildJobRecord} (status : JobStatus) (now : ℕ)
      → j.status ≡ running
      → is_running status ≡ false
      → JobStep j (released status now j)
  error_step :
      {j : BuildJobRecord} (status : JobStatus) (error : String) (now : ℕ)
      → j.status ≡ running
      → (status ≡ queued) ⊎ (status ≡ failed)
      → JobStep j (released_with status error now j)
  withdraw_step :
      {j : BuildJobRecord} (now : ℕ) → j.status ≡ queued → JobStep j (released cancelled now j)

pub data JobLater : BuildJobRecord → BuildJobRecord → Type 0 where
  unchanged : {j : BuildJobRecord} → JobLater j j
  later : {i j k : BuildJobRecord} → JobLater i j → JobStep j k → JobLater i k

JobLater-trans : {i j k : BuildJobRecord} → JobLater i j → JobLater j k → JobLater i k
JobLater-trans p unchanged = p
JobLater-trans p (later q s) = later (JobLater-trans p q) s

-- A job as `enqueue` adds it.
abbrev pub IsFresh : BuildJobRecord → Type 0
IsFresh j =
    (j.status ≡ queued) × (j.attempt ≡ 0) × (j.lease_owner ≡ none) × (j.lease_expires_at ≡ none)

-- The row of a new job, and what it became since.
abbrev pub FromFresh : JobRow → Type 0
FromFresh r = (j : BuildJobRecord) × IsFresh j × JobLater j r.job

-- Each row stays in its place and its job goes on by steps; rows are added at the end.
pub data Grows : List JobRow → List JobRow → Type 0 where
  added : {rs : List JobRow} → All FromFresh rs → Grows [] rs
  kept :
      {r r' : JobRow} {rs rs' : List JobRow}
      → r'.queue_name ≡ r.queue_name
      → JobLater r.job r'.job
      → Grows rs rs'
      → Grows (r ∷ rs) (r' ∷ rs')

abbrev pub AllSound : List JobRow → Type 0
AllSound = All (λ (r : JobRow). IsSound r.job)

pub Grows-refl : (rs : List JobRow) → Grows rs rs
Grows-refl [] = added tt
Grows-refl (r ∷ rs) = kept refl unchanged (Grows-refl rs)

FromFresh-later : {rs rs' : List JobRow} → Grows rs rs' → All FromFresh rs → All FromFresh rs'
FromFresh-later (added k) h = k
FromFresh-later (kept _ l' g) ((j, fresh, l), h) =
    ((j, fresh, JobLater-trans l l'), FromFresh-later g h)

Grows-trans : {rs ss ts : List JobRow} → Grows rs ss → Grows ss ts → Grows rs ts
Grows-trans (added h) g = added (FromFresh-later g h)
Grows-trans (kept q l g) (kept q' l' g') = kept (q' ∙ q) (JobLater-trans l l') (Grows-trans g g')

pub Grows-append : (rs : List JobRow) (r : JobRow) → IsFresh r.job → Grows rs (rs ++ r ∷ [])
Grows-append [] r h = added ((r.job, h, unchanged), tt)
Grows-append (s ∷ rs) r h = kept refl unchanged (Grows-append rs r h)

-- From sound rows: the rows after are sound, and grew from those before.
pub record Grown (rs rs' : List JobRow) : Type 0 where
  pub sound : AllSound rs → AllSound rs'
  pub grows : AllSound rs → Grows rs rs'

pub Grown-refl : (rs : List JobRow) → Grown rs rs
Grown-refl rs = record { sound = λ h. h; grows = λ h. Grows-refl rs }

module _ {R : Type 0} where
  abbrev pub Growing : QueueState R → QueueState R → Type 0
  Growing s s' = Grown s.tables.jobs s'.tables.jobs

  pub Growing-IsPreorder : IsPreorder Growing
  Growing-IsPreorder = record {
    reflexive = λ s. Grown-refl s.tables.jobs;
    transitive = λ a b c f g. record {
      sound = λ h. g.sound (f.sound h);
      grows = λ h. Grows-trans (f.grows h) (g.grows (f.sound h));
    };
  }

-- An update that takes each sound job that it meets one step, to a sound job.
module _ (p : BuildJobRecord → Bool) (f : BuildJobRecord → BuildJobRecord) where
  abbrev pub Steps : Type 0
  Steps = (j : BuildJobRecord) → p j ≡ true → IsSound j → IsSound (f j) × JobStep j (f j)

  abbrev pub updated : List JobRow → List JobRow
  updated = update (λ r. p r.job) (λ r. record r { job = f r.job })

  updated-AllSound : Steps → (rs : List JobRow) → AllSound rs → AllSound (updated rs)
  updated-AllSound step [] h = tt
  updated-AllSound step (r ∷ rs) (s, h) = elim (Bool-cases (p r.job)) [
    | inl e ↦ (rw e ((step r.job e s).0), updated-AllSound step rs h)
    | inr e ↦ (rw e s, updated-AllSound step rs h)
  ]

  updated-Grows : Steps → (rs : List JobRow) → AllSound rs → Grows rs (updated rs)
  updated-Grows step [] h = added tt
  updated-Grows step (r ∷ rs) (s, h) = elim (Bool-cases (p r.job)) [
    | inl e ↦ rw e (kept refl (later unchanged (step r.job e s).1) (updated-Grows step rs h))
    | inr e ↦ rw e (kept refl unchanged (updated-Grows step rs h))
  ]

  pub updated-Grown : Steps → (rs : List JobRow) → Grown rs (updated rs)
  updated-Grown step rs = record { sound = updated-AllSound step rs; grows = updated-Grows step rs }

pub append-Grown : (rs : List JobRow) (r : JobRow) → IsFresh r.job → Grown rs (rs ++ r ∷ [])
append-Grown rs r fresh = record {
  sound = λ h. All-append _ rs (r ∷ []) h (ground (arith, fresh), tt);
  grows = λ h. Grows-append rs r fresh;
}
