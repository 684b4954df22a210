-- ===== src/Cache/Entries.antt =====
-- The rows of the table build_cache and the SQL statements of src/cache.rs on them. A BIGINT holds
-- its bit pattern, and `none` is a statement that the primary key refuses.
use hostinger.Prelude.{
  ℕ, String, Bool, true, false, not, ◌&&◌, Option, none, some, List, [], ◌∷◌, ◌++◌, ◌==◌, str_eq,
  find, update, any, if◌then◌else◌,
}

pub record BuildCacheEntry : Type 0 where
  pub id : ℕ
  pub cache_key : String
  pub project_id : ℕ
  pub artifact_checksum : String
  pub size_bytes : ℕ  -- u64
  pub storage_path : String
  pub toolchain : String
  pub created_at : ℕ
  pub last_used_at : ℕ
  pub is_invalidated : Bool

pub record StoreCacheEntryInput : Type 0 where
  pub cache_key : String
  pub project_id : ℕ
  pub artifact_checksum : String
  pub size_bytes : ℕ  -- u64
  pub storage_path : String
  pub toolchain : String

-- WHERE project_id = $1 AND cache_key = $2
abbrev pub is_for : ℕ → String → BuildCacheEntry → Bool
is_for project_id cache_key e = e.project_id == project_id && str_eq e.cache_key cache_key

abbrev pub new_entry : StoreCacheEntryInput → ℕ → ℕ → BuildCacheEntry
new_entry input id now = record {
  id = id;
  cache_key = input.cache_key;
  project_id = input.project_id;
  artifact_checksum = input.artifact_checksum;
  size_bytes = input.size_bytes;
  storage_path = input.storage_path;
  toolchain = input.toolchain;
  created_at = now;
  last_used_at = now;
  is_invalidated = false;
}

-- ON CONFLICT (project_id, cache_key) DO UPDATE SET ...
abbrev pub stored_again : StoreCacheEntryInput → ℕ → BuildCacheEntry → BuildCacheEntry
stored_again input now e = record e {
  artifact_checksum = input.artifact_checksum;
  size_bytes = input.size_bytes;
  storage_path = input.storage_path;
  toolchain = input.toolchain;
  last_used_at = now;
  is_invalidated = false;
}

-- INSERT INTO build_cache ... ON CONFLICT ... RETURNING ...
unfoldable pub upsert_entry :
    StoreCacheEntryInput
    → ℕ
    → ℕ
    → List BuildCacheEntry
    → Option (BuildCacheEntry × List BuildCacheEntry)
upsert_entry input id now es = elim (find (is_for input.project_id input.cache_key) es) [
  | some e ↦ some (
    stored_again input now e,
    update (is_for input.project_id input.cache_key) (stored_again input now) es,
  )
  | none ↦
      if any (λ (e : BuildCacheEntry). e.id == id) es
      then none
      else some (new_entry input id now, es ++ new_entry input id now ∷ [])
]

-- SELECT ... WHERE project_id = $1 AND cache_key = $2 AND is_invalidated = false
unfoldable pub valid_entry : ℕ → String → List BuildCacheEntry → Option BuildCacheEntry
valid_entry project_id cache_key es =
    find (λ e. is_for project_id cache_key e && not e.is_invalidated) es

abbrev pub used_at : ℕ → BuildCacheEntry → BuildCacheEntry
used_at now e = record e { last_used_at = now }

abbrev pub invalidated : BuildCacheEntry → BuildCacheEntry
invalidated e = record e { is_invalidated = true }

-- UPDATE build_cache SET ... WHERE ...
unfoldable pub update_entries :
    (BuildCacheEntry → Bool)
    → (BuildCacheEntry → BuildCacheEntry)
    → List BuildCacheEntry
    → List BuildCacheEntry
update_entries p f es = update p f es
