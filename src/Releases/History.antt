-- ===== src/Releases/History.antt =====
-- How the `releases` table may change from one state to a later one.
pub mod Statements
use hostinger.Prelude.{ℕ, ◌≡◌, ◌⊎◌, inl, inr, some, find}
use hostinger.Exec.{ok}
use hostinger.Exec.Moves.{IsPreorder}
use hostinger.Releases.Status.{ReleaseStatus, starting, as_str, parse}
use hostinger.Releases.Status.Graph.{◌⟶◌}
use hostinger.Releases.Record.{ReleaseRow}
use hostinger.Releases.Tables.{Tables, has_id, moved}
use hostinger.Releases.Controller.{Platform}

-- One permitted transition of a row: its status moves along the table and its version goes up by
-- one; only `updated_at` changes beside them.
pub record Advance (r r' : ReleaseRow) : Type 0 where
  pub source : ReleaseStatus
  pub target : ReleaseStatus
  pub now : ℕ
  pub reads : parse r.status ≡ ok source
  pub permitted : source ⟶ target
  pub result : r' ≡ moved (as_str target) now r

pub data Later : ReleaseRow → ReleaseRow → Type 0 where
  same : {r : ReleaseRow} → Later r r
  after : {r s t : ReleaseRow} → Later r s → Advance s t → Later r t

pub Later-trans : {r s t : ReleaseRow} → Later r s → Later s t → Later r t
Later-trans p same = p
Later-trans p (after q a) = after (Later-trans p q) a

abbrev pub IsNew : ReleaseRow → Type 0
IsNew r = (r.status ≡ as_str starting) × (r.version ≡ 1)

-- Where a row comes from: it was there before, or it was inserted as a new release.
abbrev pub Origin : Tables → ℕ → ReleaseRow → Type 0
Origin t i r = (find (has_id i) t.releases ≡ some r) ⊎ IsNew r

-- No release is lost, and each row is later than one that was there or was new.
pub record Evolves (t t' : Tables) : Type 0 where
  pub kept :
      (i : ℕ) (r : ReleaseRow)
      → find (has_id i) t.releases ≡ some r
      → (r' : ReleaseRow) × (find (has_id i) t'.releases ≡ some r') × Later r r'
  pub grown :
      (i : ℕ) (r' : ReleaseRow)
      → find (has_id i) t'.releases ≡ some r'
      → (r : ReleaseRow) × Origin t i r × Later r r'

pub Evolves-refl : (t : Tables) → Evolves t t
Evolves-refl t = record { kept = λ i r h. (r, h, same); grown = λ i r h. (r, inl h, same) }

regrow :
    (t u : Tables) (i : ℕ) (r r'' : ReleaseRow)
    → Evolves t u
    → Origin u i r
    → Later r r''
    → (s : ReleaseRow) × Origin t i s × Later s r''
regrow t u i r r'' e (inl h) l = let (s, o, k) = e.grown i r h in (s, o, Later-trans k l)
regrow t u i r r'' e (inr new) l = (r, inr new, l)

pub Evolves-trans : (t u v : Tables) → Evolves t u → Evolves u v → Evolves t v
Evolves-trans t u v e f = record {
  kept = λ i r h.
      let (r', h', l) = e.kept i r h in
      let (r'', h'', k) = f.kept i r' h' in (r'', h'', Later-trans l k);
  grown = λ i r'' h. let (r, o, l) = f.grown i r'' h in regrow t u i r r'' e o l;
}

module _ {X : Type 0} where
  abbrev pub Evolving : Platform X → Platform X → Type 0
  Evolving p p' = Evolves p.tables p'.tables

  pub Evolving-IsPreorder : IsPreorder Evolving
  Evolving-IsPreorder = record {
    reflexive = λ p. Evolves-refl p.tables;
    transitive = λ p q r. Evolves-trans p.tables q.tables r.tables;
  }
