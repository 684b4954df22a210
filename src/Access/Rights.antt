-- ===== src/Access/Rights.antt =====
-- The permission checks against a description of the rights that they ask for.
use hostinger.Prelude.{
  ℕ, String, ◌≡◌, ◌≢◌, refl, subst, ◌↔◌, ◌⊎◌, inl, inr, true, ◌||◌, Option, none, some, List, [],
  ◌∷◌, arith, str_eq, eq_iff, any, Bool-cases,
}
use hostinger.Exec.{ok}
use hostinger.Access.{AuthContext, has_scope, is_owner, can_operate, check_rollback_permission}

-- The text is one of the list.
pub data IsIn : String → List String → Type 0 where
  first : {s : String} {ss : List String} → IsIn s (s ∷ ss)
  further : {s t : String} {ss : List String} → IsIn s ss → IsIn s (t ∷ ss)

-- The scope itself, or the scope of everything.
abbrev pub Holds : AuthContext → String → Type 0
Holds auth scope = IsIn "*" auth.scopes ⊎ IsIn scope auth.scopes

abbrev pub Owns : AuthContext → Option ℕ → Type 0
Owns auth none = Unit
Owns auth (some owner_id) = (auth.user_id ≡ owner_id) ⊎ (auth.user_id ≡ 0)

abbrev pub MayRollBack : AuthContext → Option ℕ → String → Type 0
MayRollBack auth owner environment =
    Owns auth owner
    × ((environment ≡ "production")
          × (Holds auth "production:operate" ⊎ Holds auth "deploy:rollback")
        ⊎ (environment ≢ "production") × (Holds auth "deploy:write" ⊎ Holds auth "deploy:operate"))

holding_of :
    (s : String) (ss : List String)
    → any (λ t. str_eq t "*" || str_eq t s) ss ≡ true
    → IsIn "*" ss ⊎ IsIn s ss
holding_of s [] h = cc
holding_of s (t ∷ ss) h = elim (Bool-cases (str_eq t "*")) [
  | inl e ↦ inl (subst (λ u. IsIn u (t ∷ ss)) ((eq_iff t "*").0 e) first)
  | inr other ↦ elim (Bool-cases (str_eq t s)) [
    | inl e ↦ inr (subst (λ u. IsIn u (t ∷ ss)) ((eq_iff t s).0 e) first)
    | inr differs ↦ elim (holding_of s ss (ground (arith, h, other, differs))) [
      | inl i ↦ inl (further i)
      | inr i ↦ inr (further i)
    ]
  ]
]

any-IsIn :
    (s u : String) {ss : List String}
    → IsIn u ss
    → (u ≡ "*") ⊎ (u ≡ s)
    → any (λ t. str_eq t "*" || str_eq t s) ss ≡ true
any-IsIn s u first (inl e) = ground (arith, (eq_iff u "*").1 e)
any-IsIn s u first (inr e) = ground (arith, (eq_iff u s).1 e)
any-IsIn s u (further i) w = ground (arith, any-IsIn s u i w)

has_scope_iff : (auth : AuthContext) (s : String) → (has_scope auth s ≡ true) ↔ Holds auth s
unfolding has_scope
has_scope_iff auth s = (
  holding_of s auth.scopes,
  λ h. elim h [ inl i ↦ any-IsIn s "*" i (inl refl) | inr i ↦ any-IsIn s s i (inr refl) ],
)

-- The test of the scope of everything adds nothing.
wildcard_adds_nothing :
    (auth : AuthContext) (s : String) → has_scope auth "*" ≡ true → has_scope auth s ≡ true
wildcard_adds_nothing auth s h = elim ((has_scope_iff auth "*").0 h) [
  | inl i ↦ (has_scope_iff auth s).1 (inl i)
  | inr i ↦ (has_scope_iff auth s).1 (inl i)
]

is_owner_iff :
    (auth : AuthContext) (owner : Option ℕ)
    → (is_owner (record { auth = auth; project_user_id = owner }) ≡ true) ↔ Owns auth owner
unfolding is_owner
is_owner_iff auth none = (λ h. tt, λ h. refl)
is_owner_iff auth (some i) = (λ h. ground arith, λ h. ground arith)

-- Either of two scopes, as the code tests for them.
either_iff :
    (auth : AuthContext) (s t : String)
    → ((has_scope auth "*" || has_scope auth s || has_scope auth t) ≡ true)
      ↔ (Holds auth s ⊎ Holds auth t)
either_iff auth s t = (
  λ h. elim (Bool-cases (has_scope auth s)) [
    | inl e ↦ inl ((has_scope_iff auth s).0 e)
    | inr no_s ↦
        inr ((has_scope_iff auth t).0 (ground (arith, h, no_s, wildcard_adds_nothing auth s)))
  ],
  λ h. elim h [
    | inl k ↦ ground (arith, (has_scope_iff auth s).1 k)
    | inr k ↦ ground (arith, (has_scope_iff auth t).1 k)
  ],
)

granted :
    (auth : AuthContext) (owner : Option ℕ) (environment : String)
    → check_rollback_permission auth owner environment ≡ ok tt
    → MayRollBack auth owner environment
unfolding check_rollback_permission can_operate
granted auth owner environment h = (
  (is_owner_iff auth owner).0 (ground (arith, h)),
  elim (Bool-cases (str_eq environment "production")) [
    | inl e ↦ inl (
      (eq_iff environment "production").0 e,
      (either_iff auth "production:operate" "deploy:rollback").0 (ground (arith, h, e)),
    )
    | inr e ↦ inr (
      λ same. absurd (ground (arith, (eq_iff environment "production").1 same, e)),
      (either_iff auth "deploy:write" "deploy:operate").0 (ground (arith, h, e)),
    )
  ],
)

enough :
    (auth : AuthContext) (owner : Option ℕ) (environment : String)
    → MayRollBack auth owner environment
    → check_rollback_permission auth owner environment ≡ ok tt
unfolding check_rollback_permission can_operate
enough auth owner environment (own, inl (e, scope)) = ground (
  arith,
  (is_owner_iff auth owner).1 own,
  (eq_iff environment "production").1 e,
  (either_iff auth "production:operate" "deploy:rollback").1 scope,
)
enough auth owner environment (own, inr (e, scope)) =
    elim (Bool-cases (str_eq environment "production")) [
      | inl same ↦ absurd (e ((eq_iff environment "production").0 same))
      | inr other ↦ ground (
        arith,
        (is_owner_iff auth owner).1 own,
        other,
        (either_iff auth "deploy:write" "deploy:operate").1 scope,
      )
    ]

-- A rollback is permitted exactly to who owns the project (a project without an owner belongs to
-- all, and the nil user owns all) and holds, in production, the scope to operate it or to roll back,
-- elsewhere a scope to write or operate deployments; the scope of everything stands for each.
pub check_rollback_permission_iff :
    (auth : AuthContext) (owner : Option ℕ) (environment : String)
    → (check_rollback_permission auth owner environment ≡ ok tt)
      ↔ MayRollBack auth owner environment
check_rollback_permission_iff auth owner environment =
    (granted auth owner environment, enough auth owner environment)
