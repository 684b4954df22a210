-- ===== src/Access.antt =====
-- Who may do what to a project: `AuthContext` and `ProjectAccess` of src/auth.rs, and the permission
-- check of src/rollback.rs. The nil UUID is 0.
pub mod Rights
use hostinger.Prelude.{
  ℕ, String, Bool, true, false, not, ◌&&◌, ◌||◌, Option, none, some, List, ◌==◌, str_eq, any,
  if◌then◌else◌,
}
use hostinger.Exec.{Result, ok, err}

pub record AuthContext : Type 0 where
  pub user_id : ℕ
  pub session_id : Option ℕ
  pub scopes : List String

unfoldable pub has_scope : AuthContext → String → Bool
has_scope auth scope = any (λ s. str_eq s "*" || str_eq s scope) auth.scopes

pub record ProjectAccess : Type 0 where
  pub auth : AuthContext
  pub project_user_id : Option ℕ

unfoldable pub is_owner : ProjectAccess → Bool
is_owner access = elim access.project_user_id [
  | some owner_id ↦ access.auth.user_id == owner_id || access.auth.user_id == 0
  | none ↦ true
]

unfoldable pub can_read : ProjectAccess → Bool
can_read access =
    is_owner access && (has_scope access.auth "*" || has_scope access.auth "project:read")

unfoldable pub can_mutate : ProjectAccess → Bool
can_mutate access =
    is_owner access && (has_scope access.auth "*" || has_scope access.auth "project:write")

unfoldable pub can_operate : ProjectAccess → Bool
can_operate access =
    is_owner access
    && (has_scope access.auth "*"
        || has_scope access.auth "deploy:write"
        || has_scope access.auth "deploy:operate")

-- The three refusals.
pub data Refusal : Type 0 where
  no_access not_production_operator not_operator : Refusal

unfoldable pub check_rollback_permission :
    AuthContext → Option ℕ → String → Result Refusal (Unit {0})
check_rollback_permission auth project_user_id environment =
    let access : ProjectAccess = record { auth = auth; project_user_id = project_user_id } in
    if not (is_owner access)
    then err no_access
    else if str_eq environment "production"
    then if not (
        has_scope auth "*"
        || has_scope auth "production:operate"
        || has_scope auth "deploy:rollback")
      then err not_production_operator
      else ok tt
    else if not (can_operate access)
    then err not_operator
    else ok tt
