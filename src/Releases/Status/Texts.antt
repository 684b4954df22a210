-- ===== src/Releases/Status/Texts.antt =====
-- The texts of `ReleaseStatus` in the `status` columns.
use hostinger.Prelude.{String, ◌≡◌, refl, ap, ◌∙◌, ◌↔◌, arith, eq_iff}
use hostinger.Exec.{ok}
use hostinger.Releases.Status.{ReleaseStatus, starting, as_str, parse}

pub parse-as_str : (s : ReleaseStatus) → parse (as_str s) ≡ ok s
unfolding parse as_str
parse-as_str starting = refl
parse-as_str _ = refl

parse_exact_to : (t : String) (s : ReleaseStatus) → parse t ≡ ok s → t ≡ as_str s
unfolding parse as_str
parse_exact_to t s h = ground (
  arith,
  eq_iff t "starting",
  eq_iff t "health_checking",
  eq_iff t "ready",
  eq_iff t "active",
  eq_iff t "draining",
  eq_iff t "stopped",
  eq_iff t "failed",
)

-- A text is read as a status exactly if it is the text that is written for that status.
pub parse_exact : (t : String) (s : ReleaseStatus) → (parse t ≡ ok s) ↔ (t ≡ as_str s)
parse_exact t s = (parse_exact_to t s, λ e. ap parse e ∙ parse-as_str s)
