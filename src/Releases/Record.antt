-- ===== src/Releases/Record.antt =====
-- The records of src/releases.rs, the rows of their tables (migrations/0011_releases.sql), and the
-- reading of a row.
use hostinger.Prelude.{ℕ, String, Option}
use hostinger.Exec.{Result, ok, err}
use hostinger.Releases.Status.{ReleaseStatus, ReleaseError, parse}

pub record Release : Type 0 where
  pub id : ℕ
  pub deployment_id : ℕ
  pub project_id : ℕ
  pub environment : String
  pub status : ReleaseStatus
  pub version : ℕ
  pub container_id : Option String
  pub port : Option ℕ
  pub url : Option String
  pub created_at : ℕ
  pub updated_at : ℕ

pub record ReleaseTransitionRecord : Type 0 where
  pub id : ℕ
  pub release_id : ℕ
  pub from_status : ReleaseStatus
  pub to_status : ReleaseStatus
  pub reason : Option String
  pub created_at : ℕ

-- A row of `releases`: the status is a text.
pub record ReleaseRow : Type 0 where
  pub id : ℕ
  pub deployment_id : ℕ
  pub project_id : ℕ
  pub environment : String
  pub status : String
  pub version : ℕ  -- INT
  pub container_id : Option String
  pub port : Option ℕ
  pub url : Option String
  pub created_at : ℕ
  pub updated_at : ℕ

-- A row of `release_transitions`.
pub record TransitionRow : Type 0 where
  pub id : ℕ
  pub release_id : ℕ
  pub from_status : String
  pub to_status : String
  pub reason : Option String
  pub created_at : ℕ

-- A row of `active_routes`, whose key is the project and the environment.
pub record ActiveRoute : Type 0 where
  pub project_id : ℕ
  pub environment : String
  pub active_release_id : ℕ
  pub route_target : String
  pub activated_at : ℕ
  pub updated_at : ℕ

abbrev pub with_status :
    ReleaseRow → Result ReleaseError ReleaseStatus → Result ReleaseError Release
with_status row (err e) = err e
with_status row (ok s) = ok (record {
  id = row.id;
  deployment_id = row.deployment_id;
  project_id = row.project_id;
  environment = row.environment;
  status = s;
  version = row.version;
  container_id = row.container_id;
  port = row.port;
  url = row.url;
  created_at = row.created_at;
  updated_at = row.updated_at;
})

-- The `Release` of a row; `?` on the parse of its status.
unfoldable pub from_row : ReleaseRow → Result ReleaseError Release
from_row row = with_status row (parse row.status)
