-- ===== src/Cache/Repository.antt =====
-- `BuildCacheRepository` of src/cache.rs.
use hostinger.Prelude.{ℕ, String, Option, List, ◌==◌}
use hostinger.Exec.{Exec, read, try_write, update_db, new_uuid, now_utc, ◌>>=◌}
use hostinger.Cache.Entries.{
  BuildCacheEntry, StoreCacheEntryInput, is_for, upsert_entry, valid_entry, used_at, invalidated,
  update_entries,
}

-- The contexts of the errors of the statements.
pub data CacheError : Type 0 where
  store_failed query_failed touch_failed invalidate_failed invalidate_project_failed : CacheError

abbrev pub CacheAction : Type 0 → Type 0
CacheAction A = Exec (List BuildCacheEntry) CacheError A

unfoldable pub store : StoreCacheEntryInput → CacheAction BuildCacheEntry
store input = do id ← new_uuid; now ← now_utc; try_write store_failed (upsert_entry input id now)

unfoldable pub get_valid : ℕ → String → CacheAction (Option BuildCacheEntry)
get_valid project_id cache_key = read query_failed (valid_entry project_id cache_key)

unfoldable pub touch_used : ℕ → String → CacheAction (Unit {0})
touch_used project_id cache_key = do
  now ← now_utc
  update_db touch_failed (update_entries (is_for project_id cache_key) (used_at now))

unfoldable pub invalidate : ℕ → String → CacheAction (Unit {0})
invalidate project_id cache_key =
    update_db invalidate_failed (update_entries (is_for project_id cache_key) invalidated)

unfoldable pub invalidate_project : ℕ → CacheAction (Unit {0})
invalidate_project project_id =
    update_db invalidate_project_failed
      (update_entries (λ (e : BuildCacheEntry). e.project_id == project_id) invalidated)
