-- ===== src/Releases/Guarantees.antt =====
-- What every history of the `releases` table keeps.
use hostinger.Prelude.{
  ℕ, ◌+◌, ◌≤◌, ◌≡◌, refl, sym, ap, ◌∙◌, subst, ◌⊎◌, inl, inr, some, List, arith, find,
}
use hostinger.Exec.{ok, World}
use hostinger.Releases.Status.{ReleaseStatus, starting, stopped, failed, as_str, parse}
use hostinger.Releases.Status.Texts.{parse-as_str}
use hostinger.Releases.Status.Graph.{rank, rank-lt}
use hostinger.Releases.Record.{ReleaseRow}
use hostinger.Releases.Tables.{Tables, has_id}
use hostinger.Releases.Controller.{Platform}
use hostinger.Releases.History.{Advance, Later, same, after, IsNew, Origin, Evolves}
use hostinger.Releases.Lifecycle.{Operation, perform_all, perform_all-Evolves}

-- A row whose status can be read, and whose version leaves room for the transitions still to come.
abbrev pub Fits : ReleaseRow → Type 0
Fits r = (s : ReleaseStatus) × (parse r.status ≡ ok s) × (r.version + rank s ≤ 6)

abbrev pub AllFit : Tables → Type 0
AllFit t = (i : ℕ) (r : ReleaseRow) → find (has_id i) t.releases ≡ some r → Fits r

Advance-Fits : {r r' : ReleaseRow} → Advance r r' → Fits r → Fits r'
Advance-Fits {r} {r'} a (s, reads, room) =
    let known : a.source ≡ s = ground (arith, a.reads, reads) in
    let reached : r'.version ≡ r.version + 1 = ap (λ (x : ReleaseRow). x.version) a.result in
    (
      a.target,
      ap (λ (x : ReleaseRow). parse x.status) a.result ∙ parse-as_str a.target,
      omega (arith, rank-lt a.source a.target a.permitted, ap rank known),
    )

Later-Fits : {r r' : ReleaseRow} → Later r r' → Fits r → Fits r'
Later-Fits same h = h
Later-Fits (after l a) h = Advance-Fits a (Later-Fits l h)

IsNew-Fits : (r : ReleaseRow) → IsNew r → Fits r
unfolding rank
IsNew-Fits r new = (starting, ap parse new.0 ∙ parse-as_str starting, omega arith)

Origin-Fits : (t : Tables) (i : ℕ) (r : ReleaseRow) → AllFit t → Origin t i r → Fits r
Origin-Fits t i r h (inl found) = h i r found
Origin-Fits t i r h (inr new) = IsNew-Fits r new

Evolves-AllFit : (t t' : Tables) → Evolves t t' → AllFit t → AllFit t'
Evolves-AllFit t t' e h i r' found =
    let (r, origin, l) = e.grown i r' found in Later-Fits l (Origin-Fits t i r h origin)

module _ {X : Type 0} (os : List (Operation X)) (w : World (Platform X)) where
  -- From tables where each status is readable and each version leaves room for the transitions that
  -- the status still permits, every sequence of operations leads to such tables: no later read of a
  -- release meets an unknown status, and no version passes 6, far below the limit of its column.
  pub perform_all-AllFit :
      AllFit w.db.tables
      → (i : ℕ) (r : ReleaseRow) → find (has_id i) (perform_all os w).db.tables.releases ≡ some r
      → (s : ReleaseStatus) × (parse r.status ≡ ok s) × (r.version + rank s ≤ 6)
  perform_all-AllFit h =
      Evolves-AllFit w.db.tables (perform_all os w).db.tables (perform_all-Evolves os w) h

abbrev pub IsOver : ReleaseRow → Type 0
IsOver r = (r.status ≡ as_str stopped) ⊎ (r.status ≡ as_str failed)

Advance-not-IsOver : {r r' : ReleaseRow} → Advance r r' → ¬ IsOver r
unfolding rank
Advance-not-IsOver {r} a (inl h) =
    let ended : a.source ≡ stopped = ground (arith, a.reads, ap parse h, parse-as_str stopped) in
    absurd (omega (arith, rank-lt a.source a.target a.permitted, ap rank ended))
Advance-not-IsOver {r} a (inr h) =
    let ended : a.source ≡ failed = ground (arith, a.reads, ap parse h, parse-as_str failed) in
    absurd (omega (arith, rank-lt a.source a.target a.permitted, ap rank ended))

Later-over : {r r' : ReleaseRow} → Later r r' → IsOver r → r' ≡ r
Later-over same h = refl
Later-over (after {r} {s} {t} l a) h =
    absurd (Advance-not-IsOver a (subst IsOver (sym (Later-over l h)) h))

module _ {X : Type 0} (os : List (Operation X)) (w : World (Platform X)) where
  -- A release that is `stopped` or `failed` is never written again, by whatever sequence of
  -- operations: its row stays as it is in every column.
  pub perform_all-over :
      (i : ℕ) (r : ReleaseRow)
      → find (has_id i) w.db.tables.releases ≡ some r
      → IsOver r
      → find (has_id i) (perform_all os w).db.tables.releases ≡ some r
  perform_all-over i r found h =
      let (r', found', l) = (perform_all-Evolves os w).kept i r found in
      found' ∙ ap some (Later-over l h)
