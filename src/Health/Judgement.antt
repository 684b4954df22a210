-- ===== src/Health/Judgement.antt =====
-- When a response counts as healthy.
use hostinger.Prelude.{
  String, ◌≡◌, ◌↔◌, refl, true, some, none, inl, inr, Option, List, [], ◌∷◌, arith, All, contains,
  lookup, to_lowercase, eq_iff, Option-cases,
}
use hostinger.Health.{HealthPolicy, ProbeResponse, check_headers, check_body, judge}

-- An expected header is there, under its lowered name, with the expected value.
abbrev pub Carries : ProbeResponse → String × String → Type 0
Carries resp (k, v) = lookup (to_lowercase k) resp.headers ≡ some v

abbrev pub Mentions : ProbeResponse → Option String → Type 0
Mentions resp none = Unit
Mentions resp (some t) = contains resp.body t ≡ true

abbrev pub Meets : HealthPolicy → ProbeResponse → Type 0
Meets policy resp =
    (resp.status ≡ policy.expected_status)
    × Mentions resp policy.expected_body_contains
    × All (Carries resp) policy.expected_headers

module _ (resp : ProbeResponse) where
  headers_sound :
      (hs : List (String × String)) → check_headers hs resp ≡ none → All (Carries resp) hs
  unfolding check_headers
  headers_sound [] h = tt
  headers_sound ((k, v) ∷ hs) h = elim (Option-cases (lookup (to_lowercase k) resp.headers)) [
    | inl e ↦ ground arith
    | inr (actual, e) ↦
        (ground (arith, eq_iff actual v), headers_sound hs (ground (arith, eq_iff actual v)))
  ]

  headers_complete :
      (hs : List (String × String)) → All (Carries resp) hs → check_headers hs resp ≡ none
  unfolding check_headers
  headers_complete [] h = refl
  headers_complete ((k, v) ∷ hs) h =
      rw (h.0, check_headers) (rw ((eq_iff v v).1 refl) (headers_complete hs h.1))

  body_exact : (o : Option String) → (check_body o resp ≡ none) ↔ Mentions resp o
  unfolding check_body
  body_exact none = (λ h. tt, λ h. refl)
  body_exact (some t) = (λ h. ground arith, λ h. ground arith)

-- A response is accepted exactly if its status is the expected one, its body contains the expected
-- text, if there is one, and it carries each expected header with the expected value.
pub judge-none_iff :
    (policy : HealthPolicy) (resp : ProbeResponse) → (judge policy resp ≡ none) ↔ Meets policy resp
unfolding judge
judge-none_iff policy resp = (
  λ h. (
    ground arith,
    (body_exact resp policy.expected_body_contains).0 (ground arith),
    headers_sound resp policy.expected_headers (ground arith),
  ),
  λ h. ground (
    arith,
    (body_exact resp policy.expected_body_contains).1 h.1,
    headers_complete resp policy.expected_headers h.2,
  ),
)
