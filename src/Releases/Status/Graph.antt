-- ===== src/Releases/Status/Graph.antt =====
-- The transition table as a graph: where a release can go, and in how many transitions.
use hostinger.Prelude.{
  ℕ, suc, ◌+◌, ◌≤◌, ◌<◌, ◌≡◌, refl, ◌≢◌, ◌↔◌, ◌⊎◌, inl, inr, ap, true, false, arith,
}
use hostinger.Releases.Status.{
  ReleaseStatus, starting, health_checking, ready, active, draining, stopped, failed,
  can_transition_to,
}

infix 40 ◌⟶◌
abbrev pub ◌⟶◌ : ReleaseStatus → ReleaseStatus → Type 0
s ⟶ t = can_transition_to s t ≡ true

-- Walks along permitted transitions, with their length.
pub data Walk : ℕ → ReleaseStatus → ReleaseStatus → Type 0 where
  here : {s : ReleaseStatus} → Walk 0 s s
  then : {n : ℕ} {s t u : ReleaseStatus} → s ⟶ t → Walk n t u → Walk (suc n) s u

-- The length of the longest walk from a status.
unfoldable pub rank : ReleaseStatus → ℕ
rank starting = 5
rank health_checking = 4
rank ready = 3
rank active = 2
rank draining = 1
rank stopped = 0
rank failed = 0

pub rank-lt : (s t : ReleaseStatus) → s ⟶ t → rank t < rank s
unfolding rank can_transition_to
rank-lt starting t h = ground arith
rank-lt _ t h = ground arith

Walk-rank : {n : ℕ} {s t : ReleaseStatus} → Walk n s t → n + rank t ≤ rank s
Walk-rank here = omega arith
Walk-rank (then {n} {s} {t} {u} e w) = omega (arith, rank-lt s t e, Walk-rank w)

rank-le : (s : ReleaseStatus) → rank s ≤ 5
unfolding rank
rank-le starting = omega arith
rank-le _ = omega arith

-- A walk along permitted transitions has at most five of them, and none leads back to where it
-- began.
pub Walk-bounded : {n : ℕ} {s t : ReleaseStatus} → Walk n s t → (n ≤ 5) × (0 < n → s ≢ t)
Walk-bounded {s} {t} w = (
  omega (arith, Walk-rank w, rank-le s),
  λ pos same. absurd (omega (arith, Walk-rank w, ap rank same)),
)

-- A status has no permitted transition out of it exactly if it is `stopped` or `failed`.
pub stuck_iff :
    (s : ReleaseStatus)
    → ((t : ReleaseStatus) → can_transition_to s t ≡ false) ↔ ((s ≡ stopped) ⊎ (s ≡ failed))
unfolding can_transition_to
stuck_iff starting = (λ h. ground (arith, h failed), λ h. ground arith)
stuck_iff health_checking = (λ h. ground (arith, h failed), λ h. ground arith)
stuck_iff ready = (λ h. ground (arith, h failed), λ h. ground arith)
stuck_iff active = (λ h. ground (arith, h failed), λ h. ground arith)
stuck_iff draining = (λ h. ground (arith, h failed), λ h. ground arith)
stuck_iff stopped = (λ h. inl refl, λ h t. refl)
stuck_iff failed = (λ h. inr refl, λ h t. refl)
