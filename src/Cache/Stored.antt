-- ===== src/Cache/Stored.antt =====
-- What src/cache.rs serves after an entry was stored.
use hostinger.Prelude.{
  ℕ, suc, ◌≡◌, refl, sym, ◌∙◌, subst, inl, inr, Bool, true, Option, none, some, List, [], ◌∷◌, ◌++◌,
  arith, All, ◌==◌, str_eq, eq_iff, find, update, any, Bool-cases, Option-cases,
}
use hostinger.Exec.{ok, World, new_uuid, now_utc, next}
use hostinger.Exec.Outcomes.{try_write_ok, read_ok}
use hostinger.Cache.Entries.{
  BuildCacheEntry, StoreCacheEntryInput, is_for, new_entry, stored_again, upsert_entry, valid_entry,
}
use hostinger.Cache.Repository.{store_failed, query_failed, store, get_valid}
use hostinger.Cache.Validity.{CacheOperation, run_all, serves}
use hostinger.Cache.Serving.{Holds, spares, Served, run_all-Served}

module _ (input : StoreCacheEntryInput) where
  abbrev served_for : BuildCacheEntry → Bool
  served_for = serves input.project_id input.cache_key

  abbrev is_key : BuildCacheEntry → Bool
  is_key = is_for input.project_id input.cache_key

  find-stored_again :
      (now : ℕ) (es : List BuildCacheEntry) (e : BuildCacheEntry)
      → find is_key es ≡ some e
      → find served_for (update is_key (stored_again input now) es)
        ≡ some (stored_again input now e)
  find-stored_again now [] e h = cc
  find-stored_again now (x ∷ es) e h = ground (arith, h, find-stored_again now es e)

  find_new :
      (id now : ℕ) (es : List BuildCacheEntry)
      → find is_key es ≡ none
      → find served_for (es ++ new_entry input id now ∷ []) ≡ some (new_entry input id now)
  find_new id now [] h =
      let same : str_eq input.cache_key input.cache_key ≡ true =
        (eq_iff input.cache_key input.cache_key).1 refl in
      ground (arith, same)
  find_new id now (x ∷ es) h = ground (arith, h, find_new id now es)

  upserted-Served :
      (id now : ℕ) (es es' : List BuildCacheEntry) (r : BuildCacheEntry)
      → upsert_entry input id now es ≡ some (r, es')
      → Served input.project_id input.cache_key input es'
  unfolding upsert_entry
  upserted-Served id now es es' r h = elim (Option-cases (find is_key es)) [
    | inr (x, q) ↦
        let same : update is_key (stored_again input now) es ≡ es' = ground (arith, h, q) in
        subst (Served input.project_id input.cache_key input) same (
          stored_again input now x,
          find-stored_again now es x q,
          record { checksum = refl; size = refl; path = refl; tools = refl },
        )
    | inl q ↦ elim (Bool-cases (any (λ (x : BuildCacheEntry). x.id == id) es)) [
      | inl taken ↦ absurd (ground (arith, h, q, taken))
      | inr free ↦
          let same : es ++ new_entry input id now ∷ [] ≡ es' = ground (arith, h, q, free) in
          subst (Served input.project_id input.cache_key input) same (
            new_entry input id now,
            find_new id now es q,
            record { checksum = refl; size = refl; path = refl; tools = refl },
          )
    ]
  ]

-- After `store` has returned, an answer of `get_valid` for the project and the key of the entry is an
-- entry with the checksum, the size, the path and the toolchain that were stored, whatever operations
-- come between, returned or failed, if none of them stores or invalidates for that project and key.
pub stored_entry_served :
    (input : StoreCacheEntryInput) (w : World (List BuildCacheEntry)) (e : BuildCacheEntry)
    (os : List CacheOperation) (answer : Option BuildCacheEntry)
    → (store input w).0 ≡ ok e
    → All (λ o. spares input.project_id input.cache_key o ≡ true) os
    → (get_valid input.project_id input.cache_key (run_all os (store input w).1)).0 ≡ ok answer
    → (found : BuildCacheEntry) × (answer ≡ some found) × Holds input found
unfolding store new_uuid now_utc get_valid valid_entry
stored_entry_served input w e os answer h others answered =
    let id = w.env.uuid w.step in
    let now = w.env.time (suc w.step) in
    let w₂ : World (List BuildCacheEntry) = next (next w) in
    let (es', wrote, after) = try_write_ok store_failed (upsert_entry input id now) w₂ e h in
    let w₃ = (store input w).1 in
    let served : Served input.project_id input.cache_key input w₃.db =
      subst
        (λ (x : World (List BuildCacheEntry)). Served input.project_id input.cache_key input x.db)
        (sym after) (upserted-Served input id now w.db es' e wrote) in
    let (found, met, held) =
      run_all-Served input.project_id input.cache_key input os w₃ others served in
    let (_, is_answer) =
      read_ok query_failed (find (served_for input)) (run_all os w₃) answer answered in
    (found, is_answer ∙ met, held)
