-- ===== src/Tests/Caching.antt =====
-- Runs of src/cache.rs on a table of two entries.
use hostinger.Prelude.{
  ℕ, ◌+◌, String, str_append, ◌≡◌, ◌≢◌, refl, sym, subst, inl, inr, false, some, List, [], ◌∷◌,
}
use hostinger.Prelude.Rows.{In, here, there}
use hostinger.Cache.Order.{In-cases}
use hostinger.Cache.Key.{BuildCacheInput, JsonValue, text, texts, Digests, from_build_inputs}
use hostinger.Cache.Canonical.{from_build_inputs_unordered}
use hostinger.Exec.{ok, World, new_uuid, now_utc, read, write, try_write}
use hostinger.Cache.Entries.{
  BuildCacheEntry, StoreCacheEntryInput, upsert_entry, update_entries, valid_entry,
}
use hostinger.Cache.Repository.{store, get_valid, invalidate, invalidate_project}
use hostinger.Cache.Validity.{
  CacheOperation, to_store, to_touch, to_invalidate, to_invalidate_project, run, run_all,
  invalidated_until_stored,
}
use hostinger.Cache.Serving.{Holds}
use hostinger.Cache.Stored.{stored_entry_served}

abbrev entry_of : ℕ → String → BuildCacheEntry
entry_of i key = record {
  id = i;
  cache_key = key;
  project_id = 5;
  artifact_checksum = "sum";
  size_bytes = 10;
  storage_path = "/cache";
  toolchain = "node20";
  created_at = 1;
  last_used_at = 1;
  is_invalidated = false;
}

abbrev cached : World (List BuildCacheEntry)
cached = record {
  env = record { fault = λ n. false; uuid = λ n. 100 + n; time = λ n. 50 + n };
  step = 0;
  db = entry_of 1 "a" ∷ entry_of 2 "b" ∷ [];
}

abbrev new_b : StoreCacheEntryInput
new_b = record {
  cache_key = "b";
  project_id = 5;
  artifact_checksum = "other";
  size_bytes = 20;
  storage_path = "/new";
  toolchain = "node22";
}

a_invalidated : (invalidate 5 "a" cached).0 ≡ ok tt
unfolding invalidate write
a_invalidated = refl

invalidated_until_stored_example :
    (get_valid 5 "a" (run_all (to_store new_b ∷ to_touch 5 "a" ∷ []) (invalidate 5 "a" cached).1)).0
    ≢ ok (some (entry_of 1 "a"))
invalidated_until_stored_example =
    invalidated_until_stored 5 "a" cached tt (to_store new_b ∷ to_touch 5 "a" ∷ []) (entry_of 1 "a")
      a_invalidated (refl, (refl, tt))

abbrev b_stored : BuildCacheEntry
b_stored = record (entry_of 2 "b") {
  artifact_checksum = "other";
  size_bytes = 20;
  storage_path = "/new";
  toolchain = "node22";
  last_used_at = 51;
}

b_returned : (store new_b cached).0 ≡ ok b_stored
unfolding store new_uuid now_utc try_write upsert_entry
b_returned = refl

abbrev on_others : List CacheOperation
on_others = to_invalidate 5 "a" ∷ to_invalidate_project 6 ∷ []

b_answered : (get_valid 5 "b" (run_all on_others (store new_b cached).1)).0 ≡ ok (some b_stored)
unfolding get_valid read valid_entry run_all run store invalidate invalidate_project update_entries
    write new_uuid now_utc try_write upsert_entry
b_answered = refl

stored_entry_served_example :
    (found : BuildCacheEntry) × (some b_stored ≡ some found) × Holds new_b found
stored_entry_served_example =
    stored_entry_served new_b cached b_stored on_others (some b_stored) b_returned
      (refl, (refl, tt)) b_answered

-- The texts of the fields, one after the other.
abbrev in_sequence : List (String × JsonValue) → String
in_sequence [] = ""
in_sequence ((name, text s) ∷ fields) = str_append name (str_append s (in_sequence fields))
in_sequence ((name, texts []) ∷ fields) = str_append name (in_sequence fields)
in_sequence ((name, texts (s ∷ _)) ∷ fields) = str_append name (str_append s (in_sequence fields))

abbrev plain_digests : Digests
plain_digests = record { json = in_sequence; sha256 = λ bytes. bytes; hex = λ bytes. "digest" }

abbrev node_build : BuildCacheInput
node_build = record {
  schema_version = "1";
  framework = "node";
  toolchain = "node20";
  build_command = "npm run build";
  lockfile_digest = "abc";
  declared_env_keys = [];
}

from_build_inputs_unordered_example :
    from_build_inputs plain_digests (record node_build { declared_env_keys = "B" ∷ "A" ∷ "B" ∷ [] })
    ≡ from_build_inputs plain_digests (record node_build { declared_env_keys = "A" ∷ "B" ∷ [] })
from_build_inputs_unordered_example =
    from_build_inputs_unordered plain_digests node_build ("B" ∷ "A" ∷ "B" ∷ []) ("A" ∷ "B" ∷ [])
      into back
  where
    into : (z : String) → In z ("B" ∷ "A" ∷ "B" ∷ []) → In z ("A" ∷ "B" ∷ [])
    into z i = elim (In-cases i) [
      | inl e ↦ subst (λ v. In v ("A" ∷ "B" ∷ [])) (sym e) (there here)
      | inr j ↦ elim (In-cases j) [
        | inl e ↦ subst (λ v. In v ("A" ∷ "B" ∷ [])) (sym e) here
        | inr k ↦ there k
      ]
    ]

    back : (z : String) → In z ("A" ∷ "B" ∷ []) → In z ("B" ∷ "A" ∷ "B" ∷ [])
    back z i = there i
