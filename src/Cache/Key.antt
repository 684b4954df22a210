-- ===== src/Cache/Key.antt =====
-- `CacheKey` of src/cache.rs. JSON, SHA-256 and hex are code of other packages, so they are a
-- parameter.
use hostinger.Prelude.{ℕ, String, List, [], ◌∷◌, str_eq, as_bytes, if◌then◌else◌}
use hostinger.Cache.Order.{text_leb}

pub record BuildCacheInput : Type 0 where
  pub schema_version : String
  pub framework : String
  pub toolchain : String
  pub build_command : String
  pub lockfile_digest : String
  pub declared_env_keys : List String

pub record CacheKey : Type 0 where
  pub digest : String
  pub canonical_json : String

-- A field of the JSON object.
pub data JsonValue : Type 0 where
  text : String → JsonValue
  texts : List String → JsonValue

pub record Digests : Type 0 where
  -- serde_json::to_string of the object with these fields, with unwrap_or_default
  pub json : List (String × JsonValue) → String
  pub sha256 : List ℕ → List ℕ
  pub hex : List ℕ → String

unfoldable pub insert : String → List String → List String
insert a [] = a ∷ []
insert a (x ∷ xs) = if text_leb a x then a ∷ x ∷ xs else x ∷ insert a xs

-- `sort()`, as an insertion sort
unfoldable pub sort : List String → List String
unfolding insert
sort [] = []
sort (x ∷ xs) = insert x (sort xs)

-- `x` before a list without repetitions
abbrev pub join : String → List String → List String
join x [] = x ∷ []
join x (y ∷ ys) = if str_eq x y then y ∷ ys else x ∷ y ∷ ys

-- `dedup()`: one of each run of equal elements
unfoldable pub dedup : List String → List String
dedup [] = []
dedup (x ∷ xs) = join x (dedup xs)

-- The fields in `json!`.
abbrev pub canonical_value : BuildCacheInput → List String → List (String × JsonValue)
canonical_value input sorted_env_keys =
    ("schema_version", text input.schema_version)
    ∷ ("framework", text input.framework)
    ∷ ("toolchain", text input.toolchain)
    ∷ ("build_command", text input.build_command)
    ∷ ("lockfile_digest", text input.lockfile_digest)
    ∷ ("declared_env_keys", texts sorted_env_keys)
    ∷ []

unfoldable pub from_build_inputs : Digests → BuildCacheInput → CacheKey
from_build_inputs digests input =
    let canonical_json =
      digests.json (canonical_value input (dedup (sort input.declared_env_keys))) in
    record {
      digest = digests.hex (digests.sha256 (as_bytes canonical_json));
      canonical_json = canonical_json;
    }
