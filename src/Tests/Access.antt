-- ===== src/Tests/Access.antt =====
-- A run of the permission check of src/rollback.rs.
use hostinger.Prelude.{◌≡◌, ◌↔◌, none, some, [], ◌∷◌}
use hostinger.Exec.{ok}
use hostinger.Access.{AuthContext, check_rollback_permission}
use hostinger.Access.Rights.{MayRollBack, check_rollback_permission_iff}

abbrev operator : AuthContext
operator = record {
  user_id = 4;
  session_id = none;
  scopes = "project:read" ∷ "deploy:rollback" ∷ [];
}

check_rollback_permission_iff_example :
    (check_rollback_permission operator (some 4) "production" ≡ ok tt)
    ↔ MayRollBack operator (some 4) "production"
check_rollback_permission_iff_example = check_rollback_permission_iff operator (some 4) "production"
